-- ===== src/Printer/Tests.antt =====
-- A log of an access and of a release, as tools/read.cc prints it.
use racez.Base.{◌≡◌, refl, List, [], ◌∷◌, ok, true}
use racez.Record.{Record, RecordType}
use racez.Sample.{zero_record}
use racez.Printer.{Token, print_log}
use racez.Printer.Laws.{see_log, accesses, print_log-shows}

abbrev access : Record
access = record zero_record {
  record_no = 1;
  thread_id = 7;
  kind = RecordType.memory_op;
  op = record (zero_record.op) {
    memory_address = 64;
    pip = 16;
    is_write = 1;
    lock_count = 1;
    lockset = 40 ∷ 0 ∷ 0 ∷ 0 ∷ 0 ∷ 0 ∷ 0 ∷ 0 ∷ 0 ∷ 0 ∷ [];
  };
}

abbrev release : Record
release = record zero_record { record_no = 2; kind = RecordType.memory_alloc }

print_log-shows_example :
    (lines : List (List Token)) × (print_log 0 (access ∷ release ∷ []) ≡ ok lines)
    × (see_log lines ≡ accesses (access ∷ release ∷ []))
print_log-shows_example = print_log-shows 0 (access ∷ release ∷ []) refl

one_access :
    accesses (access ∷ release ∷ [])
    ≡ record {
      number = 1;
      thread = 7;
      code = 16;
      address = 64;
      is_write = true;
      locks = 40 ∷ [];
      frames = [];
    }
      ∷ []
unfolding accesses
one_access = refl
