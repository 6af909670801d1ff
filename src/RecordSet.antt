-- ===== src/RecordSet.antt =====
-- `INDEX_IP_SET`, the std::set of records in tools/detect.cc: a list in the order of
-- `Record::operator<`, in which an iterator is a position and `end()` is `none`.
pub mod Threads
pub mod Order
pub mod Search
use mathlib.Core.Option
use racez.Base.{
  ℕ, zero, suc, Bool, true, false, ◌&&◌, ◌||◌, List, [], ◌∷◌, Option, none, some, ltb, ◌==◌,
  if◌then◌else◌, int_ltb,
}
use racez.Record.{Record, Op}

-- `Record::operator<`
unfoldable pub record_lt : Record → Record → Bool
record_lt a b =
    if int_ltb a.record_no b.record_no
    then true
    else if a.record_no == b.record_no && ltb a.op.pip b.op.pip
    then true
    else false

-- `set::insert`: a record that is equivalent to one of the set is not taken.
unfoldable pub insert : Record → List Record → List Record
insert r [] = r ∷ []
insert r (x ∷ xs) =
    if record_lt r x then r ∷ x ∷ xs else if record_lt x r then x ∷ insert r xs else x ∷ xs

-- `set::erase` at an iterator.
unfoldable pub erase : ℕ → List Record → List Record
erase i [] = []
erase zero (x ∷ xs) = xs
erase (suc i) (x ∷ xs) = x ∷ erase i xs

unfoldable pub set_includes_thread_id : List Record → ℕ → Option ℕ
set_includes_thread_id [] thread_id = none
set_includes_thread_id (x ∷ xs) thread_id =
    if x.thread_id == thread_id
    then some 0
    else Option.map suc (set_includes_thread_id xs thread_id)
