-- ===== src/Detect/Second.antt =====
-- The records of the second file, which `main` of tools/detect.cc keeps in a set.
use racez.Record.{Record}
