-- ===== src/Detect/Tests.antt =====
-- Runs of the detector (tools/detect.cc) on small logs, and instances of its theorems.
use racez.Base.{
  some, if◌then◌else◌, ℕ, ◌≡◌, refl, true, false, not, ◌&&◌, ◌||◌, List, [], ◌∷◌, arith, Outcome,
  ok, ok-injective, map, subst, sym, ap,
}
use racez.Record.{Record, Registers, RecordType}
use racez.Record.Views.{set_mem_alloc, start_address, size, is_alloc}
use racez.RecordSet.{record_lt, insert, erase, set_includes_thread_id}
use racez.RecordSet.Order.{record_lt_order}
use racez.LockSet.{set_intersection, collect, insert_lock}
use racez.Eraser.{Location, core_detection, first_access, switch, conclude}
use racez.Eraser.Spec.{IsAccess}
use racez.Eraser.Due.{was_due}
use racez.Eraser.Tracks.{Tracks, warns, core_detection-Tracks, first_access-Tracks}
use racez.AddressMap.{
  find, insert as insert_entry, assign, at_or_insert, put, lower_bound, erase_between,
}
use racez.Report.{call_names, show_access, show_accesses, first_slots, report_error}
use racez.Report.Filename.{Symbolizer, addr2line_command, drop_newline, line_read, get_filename}
use racez.Convert.Files.{fgets, chomp}
use racez.Convert.Numbers.{hex_width}
use racez.Convert.Numbers.{hex_digits}
use racez.Detect.Safe.{Safely}
use racez.Detect.{
  Detector, start, location_at, store_location, report_if, access_entries, memory_access,
  delete_map_entries, memory_free, memory_allocation, offline_detection, detect_raw, detect_both,
  read_new, detect,
}
use racez.Detect.Histories.{accesses_to, warnings_for, IsSound}
use racez.Detect.Run.{extend}
use racez.Detect.Races.{IsRacy}
use racez.Detect.Warnings.{detect_raw-IsSound, warnings-exact, warning-IsRacy, new_thread_unnoticed}

program : Unit {0}
unfolding record_lt insert erase set_includes_thread_id set_intersection collect insert_lock
    core_detection first_access switch conclude find insert_entry assign at_or_insert put
    lower_bound erase_between call_names show_access show_accesses first_slots report_error
    addr2line_command drop_newline line_read get_filename fgets chomp hex_width hex_digits
    location_at store_location report_if access_entries memory_access delete_map_entries memory_free
    memory_allocation offline_detection detect_raw detect_both read_new detect
program = tt

-- A system where every command leaves a line "??" in tmp.txt.
abbrev pub tools : Symbolizer
tools = record { system = λ c. some (63 ∷ 63 ∷ 10 ∷ []); binary = [] }

abbrev registers : Registers
registers = record {
  eflags = 0;
  ip = 0;
  eax = 0;
  ebx = 0;
  ecx = 0;
  edx = 0;
  esi = 0;
  edi = 0;
  ebp = 0;
  esp = 0;
  r8 = 0;
  r9 = 0;
  r10 = 0;
  r11 = 0;
  r12 = 0;
  r13 = 0;
  r14 = 0;
  r15 = 0;
}

-- An access to address 8 by a thread, with at most one lock.
abbrev pub access : ℕ → ℕ → ℕ → List ℕ → ℕ → Record
access number tid write locks count = record {
  record_no = number;
  thread_id = tid;
  kind = RecordType.memory_op;
  op = record {
    memory_address = 8;
    pip = 0x400;
    sip = 0;
    is_write = write;
    mem_op = registers;
    lock_count = count;
    lockset = locks;
  };
  stack_trace = [];
  trace_depth = 0;
}

-- A read under lock 40, a write under it by another thread, and an unlocked read by the first.
abbrev pub guarded_read : Record
guarded_read = access 1 11 0 (40 ∷ []) 1

abbrev pub guarded_write : Record
guarded_write = access 2 12 1 (40 ∷ []) 1

abbrev pub bare_read : Record
bare_read = access 3 11 0 [] 0

abbrev pub log : List Record
log = guarded_read ∷ guarded_write ∷ bare_read ∷ []

abbrev value_or_start : Outcome Detector → Detector
value_or_start (ok d) = d
value_or_start _ = start tools

abbrev final : Detector
final = value_or_start (detect_raw false log (start tools))

one_warning : map (λ w. w.location) final.output ≡ 8 ∷ []
unfolding program
one_warning = refl

-- `free` of a block that is known from its allocation forgets the address.
reuse_forgets :
    map
      (λ w. w.location)
      (value_or_start (
        detect tools true
          (record guarded_read {
            kind = RecordType.memory_alloc;
            op = set_mem_alloc 0 16 1 guarded_read.op;
          }
            ∷ guarded_write
            ∷ access 4 13 1 [] 0
            ∷ [])
          [])).output
    ≡ 8 ∷ []
unfolding program set_mem_alloc start_address size is_alloc
reuse_forgets = refl

record_lt_order_example :
    (record_lt guarded_read guarded_read ≡ false)
    × ((record_lt guarded_read guarded_write
          && record_lt guarded_write bare_read
          && not (record_lt guarded_read bare_read))
        ≡ false)
    × ((not (record_lt guarded_read guarded_write || record_lt guarded_write guarded_read)
          && not (record_lt guarded_write bare_read || record_lt bare_read guarded_write)
          && (record_lt guarded_read bare_read || record_lt bare_read guarded_read))
        ≡ false)
record_lt_order_example =
    record_lt_order guarded_read guarded_write bare_read (omega arith) (omega arith) (omega arith)

guarded_read-IsAccess : IsAccess guarded_read
guarded_read-IsAccess = record { flag = omega arith; fits = omega arith }

detect_raw-IsSound_example :
    Safely (IsSound (extend log [])) (start tools) (detect_raw false log (start tools))
unfolding program
detect_raw-IsSound_example = detect_raw-IsSound tools log refl refl

warnings-exact_example :
    warnings_for 8 final.output ≡ (if was_due (accesses_to 8 (extend log [])) then 1 else 0)
unfolding program
warnings-exact_example = warnings-exact tools log final 8 refl refl refl (omega arith)

warning-IsRacy_example : IsRacy (accesses_to 8 (extend log [])) × (warnings_for 8 final.output ≡ 1)
unfolding program
warning-IsRacy_example = warning-IsRacy tools log final 8 refl refl refl (omega arith) (omega arith)

-- The location of address 8 after the guarded read, and after the guarded write too.
abbrev pub read_once : Location
read_once = record { status = 0; records = guarded_read ∷ []; locks = 40 ∷ [] }

abbrev shared_location : Location
shared_location = record {
  status = 3;
  records = guarded_read ∷ guarded_write ∷ [];
  locks = 40 ∷ [];
}

read_once-Tracks : Tracks (guarded_read ∷ []) read_once
unfolding program
read_once-Tracks =
    let (loc, e, t, _, _) = first_access-Tracks guarded_read guarded_read-IsAccess in
    subst (Tracks (guarded_read ∷ [])) (ok-injective (sym e)) t

guarded_write-IsAccess : IsAccess guarded_write
guarded_write-IsAccess = record { flag = omega arith; fits = omega arith }

core_detection-Tracks_example :
    (loc : Location) × (core_detection guarded_write read_once
      ≡ ok (loc, warns guarded_write (guarded_read ∷ []) read_once loc))
    × Tracks (guarded_write ∷ guarded_read ∷ []) loc
unfolding record_lt
core_detection-Tracks_example =
    core_detection-Tracks guarded_write (guarded_read ∷ []) read_once read_once-Tracks
      guarded_write-IsAccess refl

shared_location-Tracks : Tracks (guarded_write ∷ guarded_read ∷ []) shared_location
unfolding program
shared_location-Tracks =
    let (loc, e, t) = core_detection-Tracks_example in
    subst (Tracks (guarded_write ∷ guarded_read ∷ [])) (ap (λ p. p.0) (ok-injective (sym e))) t

abbrev late_read : Record
late_read = access 4 13 0 [] 0

new_thread_unnoticed_example :
    (loc : Location) × (core_detection late_read shared_location ≡ ok (loc, false))
    × (loc.status ≡ 3)
    × IsRacy (late_read ∷ guarded_write ∷ guarded_read ∷ [])
unfolding record_lt
new_thread_unnoticed_example =
    new_thread_unnoticed late_read (guarded_write ∷ guarded_read ∷ []) shared_location
      shared_location-Tracks (record { flag = omega arith; fits = omega arith }) refl refl refl
      (λ l. refl)
