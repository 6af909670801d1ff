-- ===== src/Lockset.antt =====
-- The locks that a thread holds: racez_lockset.h, racez_lockset.cc and racez_mutex.cc.
-- A step of a method that an interrupt can precede is a function of its own. The busy loops of
-- `racez_sample_skid` sum into a local variable that nothing reads, and are left out.
pub mod Arrays
pub mod Contents
pub mod History
pub mod Interrupt
mod Tests
use racez.Base.{
  ℕ, zero, suc, ◌+◌, ◌-◌, Bool, true, false, List, [], ◌∷◌, Option, none, some, ◌==◌, if◌then◌else◌,
  take, load, store, Outcome, ok, fault, null_pointer, out_of_bounds, ◌>>=◌,
}

pub record Lockset : Type 0 where
  pub n : ℕ
  pub overflow : Bool
  pub slots : List ℕ

-- The locks that a reader of the structure sees: the first `n` slots.
abbrev pub held : Lockset → List ℕ
held l = take l.n l.slots

-- The thread-local storage of one thread.
pub record Tls : Type 0 where
  pub key_created : Bool
  pub lockset : Option Lockset

unfoldable pub create_tls_key : Tls → Tls
create_tls_key t = record t { key_created = true }

unfoldable pub get_per_thread_lockset : Tls → Option Lockset
get_per_thread_lockset t = t.lockset

-- The argument is the memory that `malloc` returned, with what its slots hold.
unfoldable pub set_per_thread_lockset : Option (List ℕ) → Tls → Outcome Tls
set_per_thread_lockset none t = fault null_pointer
set_per_thread_lockset (some slots) t =
    ok (record t { lockset = some (record { n = 0; overflow = false; slots = slots }) })

-- `lockset->n++`
unfoldable pub add_reserve : Lockset → Lockset
add_reserve l = record l { n = l.n + 1 }

-- `lockset->lockset_[lockset->n-1] = mutex`, and the test for a full set.
unfoldable pub add_store : ℕ → Lockset → Outcome Lockset
add_store mutex l = do
  slots ← store l.slots (l.n - 1) mutex
  ok (record l { slots = slots; overflow = if l.n == 10 then true else l.overflow })

unfoldable pub add_locked : ℕ → Lockset → Outcome Lockset
unfolding add_reserve add_store
add_locked mutex l = if l.overflow then ok l else add_store mutex (add_reserve l)

-- The search of the loop: `rounds` slots are left, and the array is read from slot `i`.
unfoldable pub find_slot : ℕ → ℕ → ℕ → List ℕ → Outcome (Option ℕ)
find_slot mutex zero i slots = ok none
find_slot mutex (suc rounds) i [] = fault out_of_bounds
find_slot mutex (suc rounds) i (x ∷ slots) =
    if x == mutex then ok (some i) else find_slot mutex rounds (suc i) slots

-- `lockset->n--`
unfoldable pub remove_release : Lockset → Lockset
remove_release l = record l { n = l.n - 1 }

-- `lockset->lockset_[i] = lockset->lockset_[lock_count - 1]`, and the reset of the overflow.
unfoldable pub remove_move : ℕ → ℕ → Lockset → Outcome Lockset
remove_move i lock_count l = do
  last ← load l.slots (lock_count - 1)
  slots ← store l.slots i last
  ok (record l { slots = slots; overflow = false })

unfoldable pub remove_found : Lockset → Option ℕ → Outcome Lockset
unfolding remove_release remove_move
remove_found l none = ok l
remove_found l (some i) = remove_move i l.n (remove_release l)

unfoldable pub remove_locked : ℕ → Lockset → Outcome Lockset
unfolding find_slot remove_found
remove_locked mutex l = do found ← find_slot mutex l.n 0 l.slots; remove_found l found

-- Both methods make the lock set of the thread at its first call.
unfoldable pub ensure_lockset : Option (List ℕ) → Tls → Outcome Tls
unfolding create_tls_key get_per_thread_lockset set_per_thread_lockset
ensure_lockset fresh t = elim (get_per_thread_lockset t) [
  | none ↦ set_per_thread_lockset fresh (create_tls_key t)
  | some l ↦ ok t
]

abbrev pub with_lockset : (Lockset → Outcome Lockset) → Tls → Outcome Tls
with_lockset f t = elim t.lockset [
  | none ↦ fault null_pointer
  | some l ↦ f l >>= λ l'. ok (record t { lockset = some l' })
]

unfoldable pub add_one_mutex : Option (List ℕ) → ℕ → Tls → Outcome Tls
unfolding ensure_lockset add_locked
add_one_mutex fresh mutex t = do t' ← ensure_lockset fresh t; with_lockset (add_locked mutex) t'

unfoldable pub remove_one_mutex : Option (List ℕ) → ℕ → Tls → Outcome Tls
unfolding ensure_lockset remove_locked
remove_one_mutex fresh mutex t = do
  t' ← ensure_lockset fresh t
  with_lockset (remove_locked mutex) t'
