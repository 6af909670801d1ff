-- ===== src/Detect/Blocks/Tests.antt =====
-- A run of the detector (tools/detect.cc) with the memory reuse filter, and instances of its theorems.
use racez.Base.{ℕ, ◌+◌, ◌≡◌, refl, true, List, [], ◌∷◌, arith, if◌then◌else◌, Outcome, ok}
use racez.Record.{Record, RecordType}
use racez.Record.Views.{set_mem_alloc, start_address, size, is_alloc}
use racez.RecordSet.{record_lt, insert, erase, set_includes_thread_id}
use racez.LockSet.{set_intersection, collect, insert_lock}
use racez.Eraser.{core_detection, first_access, switch, conclude}
use racez.Eraser.Due.{was_due}
use racez.AddressMap.{
  find, insert as insert_entry, assign, at_or_insert, put, lower_bound, erase_between,
}
use racez.Report.{call_names, show_access, show_accesses, first_slots, report_error}
use racez.Report.Filename.{addr2line_command, drop_newline, line_read, get_filename}
use racez.Convert.Files.{fgets, chomp}
use racez.Convert.Numbers.{hex_width}
use racez.Convert.Numbers.{hex_digits}
use racez.Detect.Safe.{Safely}
use racez.Detect.{
  Detector, start, location_at, store_location, report_if, access_entries, memory_access,
  delete_map_entries, memory_free, memory_allocation, offline_detection, detect_raw,
}
use racez.Detect.Histories.{warnings_for}
use racez.Detect.Run.{extend}
use racez.Detect.Tests.{tools, access, guarded_read, guarded_write, bare_read}
use racez.Detect.Blocks.{since, ended_due}
use racez.Detect.Blocks.Histories.{IsReuseSound}
use racez.Detect.Blocks.Warnings.{detect_raw-IsReuseSound, reuse_warnings-exact}

program : Unit {0}
unfolding record_lt insert erase set_includes_thread_id set_intersection collect insert_lock
    core_detection first_access switch conclude find insert_entry assign at_or_insert put
    lower_bound erase_between call_names show_access show_accesses first_slots report_error
    addr2line_command drop_newline line_read get_filename fgets chomp hex_width hex_digits
    location_at store_location report_if access_entries memory_access delete_map_entries memory_free
    memory_allocation offline_detection detect_raw set_mem_alloc start_address size is_alloc
program = tt

-- The allocation of 16 bytes at address 4, and the release of the block without a size.
abbrev pub block_event : ℕ → ℕ → ℕ → Record
block_event tid bytes alloc = record (access 0 tid 0 [] 0) {
  kind = RecordType.memory_alloc;
  op = set_mem_alloc 4 bytes alloc guarded_read.op;
}

-- A race on address 8, the release of the block with it, and the same race anew.
abbrev pub reused : List Record
reused =
    block_event 21 16 1
    ∷ guarded_read
    ∷ guarded_write
    ∷ bare_read
    ∷ block_event 22 0 0
    ∷ access 6 31 1 (40 ∷ []) 1
    ∷ access 7 32 1 (48 ∷ []) 1
    ∷ []

abbrev value_or_start : Outcome Detector → Detector
value_or_start (ok d) = d
value_or_start _ = start tools

abbrev final : Detector
final = value_or_start (detect_raw true reused (start tools))

two_warnings : warnings_for 8 final.output ≡ 2
unfolding program
two_warnings = refl

detect_raw-IsReuseSound_example :
    Safely (IsReuseSound (extend reused [])) (start tools) (detect_raw true reused (start tools))
unfolding program
detect_raw-IsReuseSound_example = detect_raw-IsReuseSound tools reused refl refl refl

reuse_warnings-exact_example :
    warnings_for 8 final.output
    ≡ (if was_due (since 8 (extend reused [])) then 1 else 0) + ended_due 8 (extend reused [])
unfolding program
reuse_warnings-exact_example =
    reuse_warnings-exact tools reused final 8 refl refl refl refl (omega arith)
