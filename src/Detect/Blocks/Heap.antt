-- ===== src/Detect/Blocks/Heap.antt =====
-- The heap map of tools/detect.cc against the allocations of the log.
use racez.Base.{ap, ℕ, ◌≡◌, refl, false, List, [], ◌∷◌, arith, ◌==◌, none, some, Option, sym, ◌∙◌}
use racez.Record.{Record}
use racez.Record.Views.{start_address, size}
use racez.AddressMap.{Map, find, insert, at_or_insert, put}
use racez.AddressMap.Laws.{IsSorted, insert-IsSorted, insert_lem, assign-IsSorted}
use racez.Detect.Entries.{entry_find}
use racez.Detect.Blocks.{allocates, known_size}

abbrev size_of : Option ℕ → ℕ
size_of none = 0
size_of (some n) = n

-- The heap map has the size of the last allocation at each address.
pub record IsHeap (log : List Record) (heap : Map ℕ) : Type 0 where
  pub sorted : IsSorted heap
  pub sizes : (a : ℕ) → size_of (find a heap) ≡ known_size a log

pub empty-IsHeap : IsHeap [] []
unfolding find
empty-IsHeap = record { sorted = tt; sizes = λ a. refl }

pub IsHeap-skip :
    (r : Record) (log : List Record) (heap : Map ℕ)
    → ((a : ℕ) → allocates a r ≡ false)
    → IsHeap log heap
    → IsHeap (r ∷ log) heap
IsHeap-skip r log heap e v = record {
  sorted = v.sorted;
  sizes = λ a. ground (arith, e a, v.sizes a);
}

pub put-IsHeap :
    (r : Record) (log : List Record) (heap : Map ℕ)
    → ((a : ℕ) → allocates a r ≡ (start_address r.op == a))
    → IsHeap log heap
    → IsHeap (r ∷ log) (put (start_address r.op) (size r.op) heap)
unfolding put
put-IsHeap r log heap e v = record {
  sorted =
      assign-IsSorted (start_address r.op) (size r.op) _
        (insert-IsSorted (start_address r.op) (size r.op) heap v.sorted);
  sizes = λ a. ground (
    arith,
    entry_find (start_address r.op) a (size r.op) (size r.op) heap v.sorted,
    e a,
    v.sizes a,
  );
}

missing_IsHeap :
    (a : ℕ) (log : List Record) (heap : Map ℕ)
    → IsHeap log heap
    → find a heap ≡ none
    → IsHeap log (insert a 0 heap).0
missing_IsHeap a log heap v e = record {
  sorted = insert-IsSorted a 0 heap v.sorted;
  sizes = λ b. ground (arith, insert_lem a b 0 heap v.sorted, v.sizes b, e);
}

looked_up :
    (a : ℕ) (log : List Record) (heap : Map ℕ)
    → IsHeap log heap
    → (o : Option ℕ) → find a heap ≡ o
    → ((at_or_insert a 0 heap).0 ≡ known_size a log) × IsHeap log (at_or_insert a 0 heap).1
unfolding at_or_insert
looked_up a log heap v none e =
    rw (at_or_insert, e) (ap size_of (sym e) ∙ v.sizes a, missing_IsHeap a log heap v e)
looked_up a log heap v (some n) e = rw (at_or_insert, e) (ap size_of (sym e) ∙ v.sizes a, v)

-- `heap[a]` is the size of the last allocation, and makes an entry of 0 if there was none.
pub at_or_insert-IsHeap :
    (a : ℕ) (log : List Record) (heap : Map ℕ)
    → IsHeap log heap
    → ((at_or_insert a 0 heap).0 ≡ known_size a log) × IsHeap log (at_or_insert a 0 heap).1
at_or_insert-IsHeap a log heap v = looked_up a log heap v (find a heap) refl
