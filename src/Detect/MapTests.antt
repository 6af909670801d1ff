-- ===== src/Detect/MapTests.antt =====
-- Instances of the theorems on the order of the records in tools/detect.cc.
use racez.Base.{◌≡◌, refl, false, [], ◌∷◌}
use racez.Record.{Record}
use racez.Detect.{start, detect_raw, detect_both}
use racez.Detect.Order.{detect_both_drops_rest}
use racez.Detect.Tests.{tools, access, guarded_read, guarded_write, bare_read, log}

detect_both_drops_rest_example :
    detect_both false log (access 1 12 1 [] 0 ∷ []) (start tools)
    ≡ detect_raw false (access 1 12 1 [] 0 ∷ []) (start tools)
detect_both_drops_rest_example =
    detect_both_drops_rest false guarded_read (guarded_write ∷ bare_read ∷ [])
      (access 1 12 1 [] 0 ∷ []) (start tools) refl
