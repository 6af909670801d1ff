-- ===== src/Detect/Blocks/Warnings.antt =====
-- The warnings of tools/detect.cc against the log that it reads, with the memory reuse filter.
use racez.Base.{◌+◌, if◌then◌else◌, ℕ, ◌≡◌, ◌≢◌, true, List, [], all, ok}
use racez.Record.{Record}
use racez.Eraser.Due.{was_due}
use racez.Report.Filename.{Symbolizer}
use racez.Detect.Safe.{Safely, Safely-result}
use racez.Detect.{Detector, start, detect_raw}
use racez.Detect.Histories.{warnings_for, well_formed}
use racez.Detect.Run.{distinct, extend}
use racez.Detect.Warnings.{due_count}
use racez.Detect.Blocks.{since, blocks_fit, ended_due}
use racez.Detect.Blocks.Histories.{IsReuseSound}
use racez.Detect.Blocks.Run.{run-IsReuseSound, start-IsReuseSound}

-- With the memory reuse filter too, on every log of distinct, well-formed records whose released blocks
-- have less than 2^31 bytes and end within the addresses, the detector runs through, or it stops in a
-- call of `get_filename`: nothing else fails an assertion, reads a NULL pointer, leaves an array or moves
-- an iterator past the end. After the run its heap map has the size of the last allocation at each address,
-- and what it holds of an address is true to the accesses since the last release of a block with it.
pub detect_raw-IsReuseSound :
    (w : Symbolizer) (rs : List Record)
    → all well_formed (extend rs []) ≡ true
    → distinct (extend rs []) ≡ true
    → blocks_fit (extend rs []) ≡ true
    → Safely (IsReuseSound (extend rs [])) (start w) (detect_raw true rs (start w))
detect_raw-IsReuseSound w rs wf ds fits =
    run-IsReuseSound rs [] (start w) (start-IsReuseSound w) wf ds fits

module _ (w : Symbolizer) (rs : List Record) (d : Detector) (a : ℕ)
    (wf : all well_formed (extend rs []) ≡ true) (ds : distinct (extend rs []) ≡ true)
    (fits : blocks_fit (extend rs []) ≡ true) (done : detect_raw true rs (start w) ≡ ok d)
    (nz : a ≢ 0) where
  -- After such a run the warnings for an address that is not 0 are exactly one for each history of
  -- accesses to it, between releases of blocks with the address, in which one was due: at some
  -- access the location was shared and written, with no lock held at all accesses of this history so
  -- far, and the access had made it shared and written or was by a thread with an access before.
  pub reuse_warnings-exact :
      warnings_for a d.output
      ≡ (if was_due (since a (extend rs [])) then 1 else 0) + ended_due a (extend rs [])
  reuse_warnings-exact =
      let entry =
        (Safely-result (IsReuseSound (extend rs [])) (start w) (detect_raw true rs (start w)) d
            (detect_raw-IsReuseSound w rs wf ds fits) done).entry
          a nz in
      due_count (since a (extend rs [])) (extend rs []) (ended_due a (extend rs [])) d a entry
