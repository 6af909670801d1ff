-- ===== src/Buffer/Interleave/Fills.antt =====
-- A call of `WriteRecord` (racez_bufferdata.cc) that fills its entry while others write.
use native.Mathlib.Decide.{dec_lt}
use racez.Base.{
  ℕ, ◌<◌, ◌≡◌, ◌≢◌, inl, inr, refl, sym, ap, ◌∙◌, subst, true, false, ◌∷◌, arith, ◌==◌, ok,
  ok-injective,
}
use racez.Record.{Record}
use racez.Buffer.{BufferData, buffer_size, update}
use racez.Buffer.Writes.{is_cell, is_writable, IsEntry}
use racez.Buffer.Log.{is_cell-update, update_at}
use racez.Buffer.Interleave.{finish_write, Pc, set_pc, Writers}
use racez.Buffer.Interleave.Invariant.{
  All-map, IsWritten, Belongs, pending, ended, newest, earlier, Inv, set_pc-cases,
  finish_write-inside, finish_write-outside, claimed-injective,
}

-- What a call that fills its entry does to the buffer.
pub record Filled (b b' : BufferData) (n : ℕ) (r : Record) : Type 0 where
  pub global : b'.global ≡ b.global
  pub cells : (j : ℕ) → is_cell (b'.cells j) ≡ true
  pub others : (j : ℕ) → j ≢ n → b'.cells j ≡ b.cells j
  pub copied : n < buffer_size → IsEntry n r (b'.cells n)

update_other : (cells : ℕ → Record) (i j : ℕ) (r : Record) → j ≢ i → update cells i r j ≡ cells j
update_other cells i j r h = let other : (i == j) ≡ false = ground arith in rw other

pub fill_lem :
    (n : ℕ) (r : Record) (b b' : BufferData)
    → is_writable r ≡ true
    → ((j : ℕ) → is_cell (b.cells j) ≡ true)
    → finish_write n r b ≡ ok b'
    → Filled b b' n r
fill_lem n r b b' w c done = elim (dec_lt n buffer_size) [
  | yes inside ↦
      (let (entry, e, copy, cell) = finish_write-inside n r b inside w (c n) in
        subst (λ x. Filled b x n r) (ok-injective (sym e ∙ done))
          (record {
            global = refl;
            cells = is_cell-update b.cells n entry cell c;
            others = λ j other. update_other b.cells n j entry other;
            copied = λ _. subst (IsEntry n r) (sym (update_at b.cells n n entry refl)) copy;
          }))
  | no outside ↦
      subst (λ x. Filled b x n r) (sym (finish_write-outside n r b b' (omega arith) done))
        (record {
          global = refl;
          cells = c;
          others = λ j _. refl;
          copied = λ inside. absurd (omega arith);
        })
]

module _ (s : Writers) (i n : ℕ) (r : Record) (b : BufferData) (inv : Inv s)
    (claims : s.pc i ≡ Pc.claimed n r) (f : Filled s.buffer b n r) where
  abbrev fill_pc : ℕ → Pc
  fill_pc = set_pc s.pc i Pc.idle

  -- A thread with an index had it before, and is another one.
  fill-cases :
      (j m : ℕ) (q : Record) → fill_pc j ≡ Pc.claimed m q → (i ≢ j) × (s.pc j ≡ Pc.claimed m q)
  fill-cases j m q h = elim (set_pc-cases s.pc i j Pc.idle) [
    | inl (same, now) ↦ absurd cc
    | inr (other, now) ↦ (other, sym now ∙ h)
  ]

  fill-IsWritten : (w : ℕ × Record) → IsWritten s.buffer s.pc w → IsWritten b fill_pc w
  fill-IsWritten (m, q) w =
      let other : m ≢ n = λ e. w.released i r (claims ∙ ap (λ k. Pc.claimed k r) (sym e)) in
      record {
        taken = (let t = w.taken in let g = f.global in omega arith);
        released = λ j p h. w.released j p (fill-cases j m p h).1;
        copied = λ h. subst (IsEntry m q) (sym (f.others m other)) (w.copied h);
      }

  filled-IsWritten : IsWritten b fill_pc (n, r)
  filled-IsWritten = record {
    taken = (let t = inv.taken i n r claims in let g = f.global in omega arith);
    released =
        λ j p h. (let (other, had) = fill-cases j n p h in other (inv.unique i j n r p claims had));
    copied = f.copied;
  }

  fill-Belongs : (m : ℕ) → Belongs s.pc s.written m → Belongs fill_pc ((n, r) ∷ s.written) m
  fill-Belongs m (pending j q h) = elim (set_pc-cases s.pc i j Pc.idle) [
    | inl (same, _) ↦
        (let (e, e') = claimed-injective (sym claims ∙ ap s.pc same ∙ h) in
          subst (Belongs fill_pc ((n, r) ∷ s.written)) e (ended r newest))
    | inr (other, now) ↦ pending j q (now ∙ h)
  ]
  fill-Belongs m (ended q there) = ended q (earlier there)

  pub fill-Inv :
      Inv (record { buffer = b; pc = set_pc s.pc i Pc.idle; written = (n, r) ∷ s.written })
  fill-Inv = record {
    cells = f.cells;
    taken = λ j m q h.
        (let t = inv.taken j m q (fill-cases j m q h).1 in let g = f.global in omega arith);
    writable = λ j m q h. inv.writable j m q (fill-cases j m q h).1;
    unique = λ j k m q p h g. inv.unique j k m q p (fill-cases j m q h).1 (fill-cases k m p g).1;
    written = (filled-IsWritten, All-map s.written fill-IsWritten inv.written);
    belongs = λ m pos h. fill-Belongs m (inv.belongs m pos (let g = f.global in omega arith));
  }
