-- ===== src/Eraser/Switch.antt =====
-- The switch of `core_detection` (tools/detect.cc) follows the history of a location.
use racez.Base.{
  ℕ, ◌<◌, ◌≡◌, refl, inl, inr, Bool, true, false, not, ◌&&◌, ◌||◌, List, ◌∷◌, none, some, arith,
  ◌==◌, if◌then◌else◌, length, get_elem?, all, load_of_get_elem?, ok,
}
use racez.Record.{Record}
use racez.RecordSet.{insert, erase, set_includes_thread_id}
use racez.RecordSet.Threads.{
  count_thread, differ, fresh, length-insert, count_thread-insert, all-insert, all-erase,
  includes_cases, length-erase, count_thread-erase,
}
use racez.Eraser.{Switched, writes, switch}
use racez.Eraser.Spec.{occurs, thread_count, classify}

-- The set has one record of each thread of the history.
pub record HasThreads (h : List Record) (set : List Record) : Type 0 where
  pub one_each : (t : ℕ) → count_thread t set ≡ (if occurs t h then 1 else 0)
  pub size : length set ≡ thread_count h

module _ (cur : Record) (h set : List Record) (v : HasThreads h set) where
  insert-HasThreads :
      fresh cur set ≡ true → occurs cur.thread_id h ≡ false → HasThreads (cur ∷ h) (insert cur set)
  insert-HasThreads f e = record {
    one_each = λ t. ground (arith, count_thread-insert t cur set f, v.one_each t);
    size = ground (arith, length-insert cur set f, v.size);
  }

  same-HasThreads : occurs cur.thread_id h ≡ true → HasThreads (cur ∷ h) set
  same-HasThreads e = record {
    one_each = λ t. ground (arith, v.one_each t);
    size = ground (arith, v.size);
  }

  replace-HasThreads :
      (i : ℕ) (r : Record)
      → fresh cur set ≡ true
      → occurs cur.thread_id h ≡ true
      → get_elem? set i ≡ some r
      → r.thread_id ≡ cur.thread_id
      → HasThreads (cur ∷ h) (insert cur (erase i set))
  replace-HasThreads i r f e at own =
      let f' = all-erase (differ cur) i set f in
      record {
        one_each = λ t. ground (
          arith,
          count_thread-insert t cur (erase i set) f',
          count_thread-erase t i set r at,
          v.one_each t,
        );
        size = ground (arith, length-insert cur (erase i set) f', length-erase i set r at, v.size);
      }

-- What the switch should set `may_report` to: the location is shared and written after the access,
-- unless it was so before and the thread is new to it.
abbrev pub may_warn : Record → List Record → Bool
may_warn cur h = classify (cur ∷ h) == 3 && not (classify h == 3 && not (occurs cur.thread_id h))

switch_new :
    (cur : Record) (h set : List Record)
    → length set ≡ thread_count h
    → 0 < length set
    → occurs cur.thread_id h ≡ false
    → set_includes_thread_id set cur.thread_id ≡ none
    → switch (classify h) cur set
      ≡ ok (record {
        status = classify (cur ∷ h);
        records = insert cur set;
        may_report = may_warn cur h;
      })
unfolding switch
switch_new cur h set size pos e found = ground arith

choose_cases {ℓ} :
    (P : List Record → Type ℓ) (b : Bool) {xs ys : List Record}
    → P xs
    → P ys
    → P (if b then xs else ys)
choose_cases P true p q = p
choose_cases P false p q = q

-- An access by a known thread takes the place of its record in the set, but for a read in the states
-- 1 and 3.
abbrev replaces : Record → List Record → Bool
replaces cur h = writes cur || (classify h == 0 || classify h == 2)

switch_old :
    (cur : Record) (h set : List Record) (i : ℕ) (r : Record)
    → length set ≡ thread_count h
    → 0 < length set
    → occurs cur.thread_id h ≡ true
    → set_includes_thread_id set cur.thread_id ≡ some i
    → get_elem? set i ≡ some r
    → switch (classify h) cur set
      ≡ ok (record {
        status = classify (cur ∷ h);
        records = if replaces cur h then insert cur (erase i set) else set;
        may_report = may_warn cur h;
      })
unfolding switch
switch_old cur h set i r size pos e found at = ground (arith, load_of_get_elem? set i r at)

-- One step of the switch keeps the state and the record set true to the history, and fails no
-- assertion.
pub switch_lem :
    (cur : Record) (h set : List Record)
    → HasThreads h set
    → 0 < length set
    → fresh cur set ≡ true
    → (s : Switched) × (switch (classify h) cur set ≡ ok s)
      × (s.status ≡ classify (cur ∷ h))
      × (s.may_report ≡ may_warn cur h)
      × HasThreads (cur ∷ h) s.records
      × ((p : Record → Bool) → all p set ≡ true → p cur ≡ true → all p s.records ≡ true)
switch_lem cur h set v pos f = elim (includes_cases cur.thread_id set) [
  | inl (found, absent) ↦
      let e : occurs cur.thread_id h ≡ false = ground (arith, v.one_each cur.thread_id) in
      (
        record {
          status = classify (cur ∷ h);
          records = insert cur set;
          may_report = may_warn cur h;
        },
        switch_new cur h set v.size pos e found,
        refl,
        refl,
        insert-HasThreads cur h set v f e,
        λ p ps pc. all-insert p cur set pc ps,
      )
  | inr (i, r, found, at, own) ↦
      let e : occurs cur.thread_id h ≡ true =
        ground (arith, v.one_each cur.thread_id, count_thread-erase cur.thread_id i set r at) in
      (
        record {
          status = classify (cur ∷ h);
          records = if replaces cur h then insert cur (erase i set) else set;
          may_report = may_warn cur h;
        },
        switch_old cur h set i r v.size pos e found at,
        refl,
        refl,
        choose_cases (HasThreads (cur ∷ h)) (replaces cur h)
            (replace-HasThreads cur h set v i r f e at own) (same-HasThreads cur h set v e),
        λ p ps pc.
            choose_cases (λ s. all p s ≡ true) (replaces cur h)
              (all-insert p cur (erase i set) pc (all-erase p i set ps)) ps,
      )
]
