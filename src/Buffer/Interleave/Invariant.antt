-- ===== src/Buffer/Interleave/Invariant.antt =====
-- Who holds which index of the log buffer (racez_bufferdata.cc), while several threads write.
use mathlib.Core.Bool.{true≢false}
use native.Mathlib.Decide.{dec_lt}
use racez.Base.{
  ℕ, ◌+◌, ◌<◌, ◌≤◌, ◌≡◌, ◌≢◌, ◌⊎◌, inl, inr, sym, ap, ◌∙◌, subst, Bool, true, false, List, [], ◌∷◌,
  arith, ltb, ◌==◌, Bool-cases, to_int, int_ltb, if◌then◌else◌, Outcome, ok, fault, out_of_bounds,
  ok-injective,
}
use racez.Record.{Record}
use racez.Buffer.{BufferData, buffer_size, atomic_increment_no_barrier, write_entry, update}
use racez.Buffer.Writes.{is_cell, is_writable, IsEntry, copy_record_lem}
use racez.Buffer.Interleave.{finish_write, Pc, set_pc, Writers}

abbrev pub All {ℓ} : {A : Type 0} → (A → Type ℓ) → List A → Type ℓ
All P [] = Unit
All P (x ∷ xs) = P x × All P xs

pub All-map {ℓ} :
    {A : Type 0} {P Q : A → Type ℓ} (xs : List A) → ((x : A) → P x → Q x) → All P xs → All Q xs
All-map [] f h = tt
All-map (x ∷ xs) f (h, hs) = (f x h, All-map xs f hs)

-- The call is one of those that ended.
pub data Among (w : ℕ × Record) : List (ℕ × Record) → Type 0 where
  newest : {ws : List (ℕ × Record)} → Among w (w ∷ ws)
  earlier : {v : ℕ × Record} {ws : List (ℕ × Record)} → Among w ws → Among w (v ∷ ws)

pub All-Among :
    (P : ℕ × Record → Type 0) {w : ℕ × Record} {ws : List (ℕ × Record)}
    → Among w ws
    → All P ws
    → P w
All-Among P newest (h, hs) = h
All-Among P (earlier a) (h, hs) = All-Among P a hs

-- The call has ended with its record at its index, if the buffer has room there.
pub record IsWritten (b : BufferData) (pc : ℕ → Pc) (w : ℕ × Record) : Type 0 where
  pub taken : w.0 ≤ b.global
  pub released : (i : ℕ) (q : Record) → pc i ≢ Pc.claimed w.0 q
  pub copied : w.0 < buffer_size → IsEntry w.0 w.1 (b.cells w.0)

-- An index that was taken belongs to a call: one that goes on, or one that has ended.
pub data Belongs (pc : ℕ → Pc) (written : List (ℕ × Record)) (n : ℕ) : Type 0 where
  pending : (i : ℕ) (r : Record) → pc i ≡ Pc.claimed n r → Belongs pc written n
  ended : (r : Record) → Among (n, r) written → Belongs pc written n

pub record Inv (s : Writers) : Type 0 where
  pub cells : (j : ℕ) → is_cell (s.buffer.cells j) ≡ true
  pub taken : (i n : ℕ) (r : Record) → s.pc i ≡ Pc.claimed n r → n ≤ s.buffer.global
  pub writable : (i n : ℕ) (r : Record) → s.pc i ≡ Pc.claimed n r → is_writable r ≡ true
  pub unique :
      (i j n : ℕ) (r q : Record) → s.pc i ≡ Pc.claimed n r → s.pc j ≡ Pc.claimed n q → i ≡ j
  pub written : All (IsWritten s.buffer s.pc) s.written
  pub belongs : (n : ℕ) → 0 < n → n ≤ s.buffer.global → Belongs s.pc s.written n

-- The state of a thread behind the step of thread `i`.
pub set_pc-cases :
    (pc : ℕ → Pc) (i j : ℕ) (a : Pc)
    → ((i ≡ j) × (set_pc pc i a j ≡ a)) ⊎ ((i ≢ j) × (set_pc pc i a j ≡ pc j))
set_pc-cases pc i j a = elim (Bool-cases (i == j)) [
  | inl same ↦ inl (ground arith, rw same)
  | inr other ↦ inr (ground arith, rw other)
]

pub set_pc_self : (pc : ℕ → Pc) (i : ℕ) (a : Pc) → set_pc pc i a i ≡ a
set_pc_self pc i a = let same : (i == i) ≡ true = ground arith in rw same

pub finish_write-inside :
    (n : ℕ) (r : Record) (b : BufferData)
    → n < buffer_size
    → is_writable r ≡ true
    → is_cell (b.cells n) ≡ true
    → (entry : Record) × (finish_write n r b ≡ ok (record b { cells = update b.cells n entry }))
      × IsEntry n r entry
      × (is_cell entry ≡ true)
unfolding finish_write write_entry
finish_write-inside n r b h w c =
    let (entry, e, copy, cell) = copy_record_lem n r (b.cells n) w c in
    let small : to_int n ≡ n = omega arith in
    let early : int_ltb buffer_size n ≡ false = ground arith in
    let inside : ltb n buffer_size ≡ true = ground arith in
    (entry, rw (small, early, inside, e), copy, cell)

beyond :
    (late inside : Bool) (b b' : BufferData) (o : Outcome BufferData)
    → inside ≡ false
    → (if late then ok b else if inside then o else fault out_of_bounds) ≡ ok b'
    → b' ≡ b
beyond true inside b b' o h e = sym (ok-injective e)
beyond false false b b' o h e = cc
beyond false true b b' o h e = absurd (true≢false h)

pub finish_write-outside :
    (n : ℕ) (r : Record) (b b' : BufferData) → buffer_size ≤ n → finish_write n r b ≡ ok b' → b' ≡ b
unfolding finish_write write_entry
finish_write-outside n r b b' h e =
    let outside : ltb n buffer_size ≡ false = ground arith in
    beyond (int_ltb buffer_size (to_int n)) (ltb n buffer_size) b b' _ outside e

pub claimed-injective :
    {n m : ℕ} {r q : Record} → Pc.claimed n r ≡ Pc.claimed m q → (n ≡ m) × (r ≡ q)
claimed-injective e = (cc, cc)

-- A thread that takes the next index.
module _ (s : Writers) (i : ℕ) (r : Record) (inv : Inv s) where
  abbrev claim_pc : ℕ → Pc
  claim_pc = set_pc s.pc i (Pc.claimed (s.buffer.global + 1) r)

  -- A thread with an index is the one that took it, or had it before.
  claim-cases :
      (j n : ℕ) (q : Record)
      → claim_pc j ≡ Pc.claimed n q
      → ((i ≡ j) × (n ≡ s.buffer.global + 1) × (q ≡ r)) ⊎ (s.pc j ≡ Pc.claimed n q)
  claim-cases j n q h = elim (set_pc-cases s.pc i j (Pc.claimed (s.buffer.global + 1) r)) [
    | inl (same, now) ↦ (let (m, p) = claimed-injective (sym now ∙ h) in inl (same, sym m, sym p))
    | inr (other, now) ↦ inr (sym now ∙ h)
  ]

  claim_pc_unique :
      (j k n : ℕ) (q p : Record) → claim_pc j ≡ Pc.claimed n q → claim_pc k ≡ Pc.claimed n p → j ≡ k
  claim_pc_unique j k n q p h g = elim (claim-cases j n q h) [
    | inl (ij, is_new, _) ↦ (elim (claim-cases k n p g) [
      | inl (ik, _, _) ↦ sym ij ∙ ik
      | inr old ↦ (let small = inv.taken k n p old in absurd (omega arith))
    ])
    | inr old ↦ (elim (claim-cases k n p g) [
      | inl (ik, is_new, _) ↦ (let small = inv.taken j n q old in absurd (omega arith))
      | inr old' ↦ inv.unique j k n q p old old'
    ])
  ]

  claim-IsWritten :
      (w : ℕ × Record)
      → IsWritten s.buffer s.pc w
      → IsWritten (atomic_increment_no_barrier s.buffer).1 claim_pc w
  unfolding atomic_increment_no_barrier
  claim-IsWritten (n, q) w = record {
    taken = (let t = w.taken in omega arith);
    released = λ j p h. elim (claim-cases j n p h) [
      | inl (_, is_new, _) ↦ (let t = w.taken in omega arith)
      | inr old ↦ w.released j p old
    ];
    copied = w.copied;
  }

  claim-Belongs :
      s.pc i ≡ Pc.idle → (n : ℕ) → Belongs s.pc s.written n → Belongs claim_pc s.written n
  claim-Belongs idle n (pending j q h) =
      elim (set_pc-cases s.pc i j (Pc.claimed (s.buffer.global + 1) r)) [
        | inl (same, _) ↦ (let e : s.pc i ≡ s.pc j = ap s.pc same in absurd cc)
        | inr (other, now) ↦ pending j q (now ∙ h)
      ]
  claim-Belongs idle n (ended q m) = ended q m

  pub claim-Inv :
      s.pc i ≡ Pc.idle
      → is_writable r ≡ true
      → Inv (record s {
        buffer = (atomic_increment_no_barrier s.buffer).1;
        pc = set_pc s.pc i (Pc.claimed (atomic_increment_no_barrier s.buffer).0 r);
      })
  unfolding atomic_increment_no_barrier
  claim-Inv idle w = record {
    cells = inv.cells;
    taken = λ j n q h. elim (claim-cases j n q h) [
      | inl (_, is_new, _) ↦ omega arith
      | inr old ↦ (let t = inv.taken j n q old in omega arith)
    ];
    writable = λ j n q h. elim (claim-cases j n q h) [
      | inl (_, _, same) ↦ subst (λ x. is_writable x ≡ true) (sym same) w
      | inr old ↦ inv.writable j n q old
    ];
    unique = claim_pc_unique;
    written = All-map s.written claim-IsWritten inv.written;
    belongs = λ n pos h. elim (dec_lt s.buffer.global n) [
      | yes above ↦
          (let e : s.buffer.global + 1 ≡ n = omega arith in
            subst (Belongs claim_pc s.written) e
              (pending i r (set_pc_self s.pc i (Pc.claimed (s.buffer.global + 1) r))))
      | no within ↦ claim-Belongs idle n (inv.belongs n pos (omega arith))
    ];
  }
