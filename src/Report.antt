-- ===== src/Report.antt =====
-- `report_error` of tools/detect.cc, with the names that `get_filename` reads for the code addresses.
pub mod Laws
pub mod Filename
use racez.Base.{
  Option, none, some, ℕ, zero, suc, ◌+◌, Bool, true, false, not, List, [], ◌∷◌, ◌==◌, ◌<◌, rounds,
  Outcome, ok, fault, out_of_bounds, cons_ok, ◌>>=◌,
}
use racez.Report.Filename.{Symbolizer, get_filename}
use racez.Record.{Record, Op}

-- The lines printed for one access of a warning.
pub record Shown : Type 0 where
  pub position : ℕ
  pub index : ℕ
  pub tid : ℕ
  pub ip : ℕ
  pub filename : List ℕ
  pub is_write : Bool
  pub lockset : List ℕ
  pub call_stack : List (List ℕ)

pub record Warning : Type 0 where
  pub number : ℕ
  pub location : ℕ
  pub accesses : List Shown

-- `for (int j = 0; j < rounds; j++) print(array[j])`
unfoldable pub first_slots : ℕ → List ℕ → Outcome (List ℕ)
first_slots zero xs = ok []
first_slots (suc n) [] = fault out_of_bounds
first_slots (suc n) (x ∷ xs) = cons_ok x (first_slots n xs)

-- The names of the frames, and what the buffer holds after them.
unfoldable pub call_names :
    Symbolizer → ℕ → List ℕ → Option (List ℕ) → Outcome (List (List ℕ) × Option (List ℕ))
call_names w zero sites buffer = ok ([], buffer)
call_names w (suc n) [] buffer = fault out_of_bounds
call_names w (suc n) (site ∷ sites) buffer = do
  filename ← get_filename w site buffer
  (names, buffer') ← call_names w n sites (some filename)
  ok (filename ∷ names, buffer')

unfoldable pub show_access :
    Symbolizer → ℕ → Record → Option (List ℕ) → Outcome (Shown × Option (List ℕ))
show_access w i r buffer = do
  filename ← get_filename w r.op.pip buffer
  locks ← first_slots (rounds r.op.lock_count) r.op.lockset
  (names, buffer') ← call_names w (rounds r.trace_depth) r.stack_trace (some filename)
  ok (
    record {
      position = i;
      index = r.record_no;
      tid = r.thread_id;
      ip = r.op.pip;
      filename = filename;
      is_write = not (r.op.is_write == 0);
      lockset = locks;
      call_stack = names;
    },
    buffer',
  )

unfoldable pub show_accesses : Symbolizer → ℕ → List Record → Option (List ℕ) → Outcome (List Shown)
show_accesses w i [] buffer = ok []
show_accesses w i (r ∷ rs) buffer = do
  (shown, buffer') ← show_access w i r buffer
  cons_ok shown (show_accesses w (suc i) rs buffer')

-- The counter of the warnings goes up, and the warning is printed.
unfoldable pub report_error : Symbolizer → List Record → ℕ → ℕ → Outcome (ℕ × Warning)
report_error w records memory_address warning_count = do
  accesses ← show_accesses w 1 records none
  ok (
    warning_count + 1,
    record { number = warning_count + 1; location = memory_address; accesses = accesses },
  )
