-- ===== src/Sample/Traces.antt =====
-- The stack trace of a sample: `get_backtrace` and the head of `signal_handler` (racez_pmuprofiler.cc).
use mathlib.Core.List.{append-nil, append_assoc}
use racez.Base.{
  ℕ, zero, suc, ◌+◌, ◌-◌, ◌%◌, ◌^◌, ◌≤◌, ◌≡◌, ◌≢◌, refl, sym, ap, ◌∙◌, subst, true, false, List, [],
  ◌∷◌, arith, ltb, ◌==◌, rounds, length, take, drop, set, store, store-set, length-set, ◌++◌, ok,
}
use racez.Record.{Record}
use racez.Flags.{Flags}
use racez.Buffer.{copy_slots}
use racez.Buffer.Writes.{copy_slots_lem}
use racez.Lockset.Arrays.{take-set_end}
use racez.Sample.{zeros, get_backtrace, with_trace}

-- The number of frames that are kept of those of the unwinder: the first two are those of the handler.
abbrev pub kept : List ℕ → ℕ
kept frames = length (take 8 (drop 2 frames))

take_nil : (n : ℕ) → take {A = ℕ} n [] ≡ []
take_nil zero = refl
take_nil (suc n) = refl

take-drop : (n : ℕ) (xs : List ℕ) → take (n - 2) (drop 2 xs) ≡ drop 2 (take n xs)
take-drop zero xs = refl
take-drop (suc zero) [] = refl
take-drop (suc zero) (x ∷ xs) = refl
take-drop (suc (suc n)) [] = take_nil (suc (suc n) - 2)
take-drop (suc (suc n)) (x ∷ []) = take_nil (suc (suc n) - 2)
take-drop (suc (suc n)) (x ∷ y ∷ xs) =
    ap (λ k. take k xs) {x = suc (suc n) - 2} {y = n} (omega arith)

drop-take : (xs : List ℕ) → drop 2 (take 10 xs) ≡ take 8 (drop 2 xs)
drop-take [] = refl
drop-take (x ∷ []) = refl
drop-take (x ∷ y ∷ xs) = refl

length-drop : (xs : List ℕ) → length (drop 2 xs) ≡ length xs - 2
length-drop [] = refl
length-drop (x ∷ []) = omega arith
length-drop (x ∷ y ∷ xs) = omega arith

pub length-take_le : (n : ℕ) (xs : List ℕ) → length (take n xs) ≤ n
length-take_le zero xs = omega arith
length-take_le (suc n) [] = omega arith
length-take_le (suc n) (x ∷ xs) = let h = length-take_le n xs in omega arith

-- From slot `i` on, with `k` slots left, the frames come behind what is there.
get_backtrace_lem :
    (frames : List ℕ) (k i : ℕ) (buffer : List ℕ)
    → i + k ≡ 10
    → length buffer ≡ 10
    → (size : ℕ) × (buffer' : List ℕ) × (get_backtrace 10 i frames buffer ≡ ok (size, buffer'))
      × (size ≡ i + length (take k frames))
      × (length buffer' ≡ 10)
      × (take size buffer' ≡ take i buffer ++ take k frames)
unfolding get_backtrace
get_backtrace_lem [] zero i buffer e l =
    (i, buffer, refl, omega arith, l, sym (append-nil (take i buffer)))
get_backtrace_lem [] (suc k) i buffer e l =
    (i, buffer, refl, omega arith, l, sym (append-nil (take i buffer)))
get_backtrace_lem (x ∷ frames) zero i buffer e l =
    let full : ltb i 10 ≡ false = ground arith in
    (i, buffer, rw full, omega arith, l, sym (append-nil (take i buffer)))
get_backtrace_lem (x ∷ frames) (suc k) i buffer e l =
    let room : ltb i 10 ≡ true = ground arith in
    let stored : store buffer i x ≡ ok (set buffer i x) = store-set buffer i x (omega arith) in
    let (size, buffer', done, n, l', same) =
      get_backtrace_lem frames k (suc i) (set buffer i x) (omega arith)
        (length-set buffer i x ∙ l) in
    (
      size,
      buffer',
      rw (room, stored, done),
      omega arith,
      l',
      same
          ∙ ap (λ xs. xs ++ take k frames) (take-set_end i buffer x (omega arith))
          ∙ append_assoc (take i buffer) (x ∷ []) (take k frames),
    )

depth_of : (size : ℕ) → size ≤ 10 → rounds ((size + 2 ^ 32 - 2) % 2 ^ 32) ≡ size - 2
depth_of size h = ground arith

few_frames : (k : ℕ) (frames : List ℕ) → k ≡ 0 + length (take 10 frames) → k ≤ 10
few_frames k frames e = let h = length-take_le 10 frames in omega arith

number_kept :
    (size : ℕ) (frames : List ℕ) → size ≡ 0 + length (take 10 frames) → size - 2 ≡ kept frames
number_kept size [] e = omega arith
number_kept size (x ∷ []) e = omega arith
number_kept size (x ∷ y ∷ fs) e = omega arith

room_for :
    (size : ℕ) (buffer trace : List ℕ)
    → size ≤ 10
    → length buffer ≡ 10
    → length trace ≡ 10
    → (size - 2 ≤ length (drop 2 buffer)) × (size - 2 ≤ length trace)
room_for size buffer trace h l t = let d = length-drop buffer in (omega arith, omega arith)

with_trace_of :
    (f : Flags) (frames : List ℕ) (r : Record) (size : ℕ) (buffer trace : List ℕ)
    → (f.racez_stacktrace == 0) ≡ false
    → get_backtrace 10 0 frames zeros ≡ ok (size, buffer)
    → rounds ((size + 2 ^ 32 - 2) % 2 ^ 32) ≡ size - 2
    → copy_slots (size - 2) (drop 2 buffer) r.stack_trace ≡ ok trace
    → with_trace f frames r
      ≡ ok (record r { stack_trace = trace; trace_depth = (size + 2 ^ 32 - 2) % 2 ^ 32 })
unfolding with_trace
with_trace_of f frames r size buffer trace lit done depth copied = rw (lit, done, depth, copied)

-- With the traces switched on, and the arrays of a fresh record, the trace of a sample never leaves an
-- array: its first slots are the third to the tenth frame of the unwinder, and the loops over its
-- depth, which is negative for fewer than two frames, run over exactly these slots. The operation
-- stays as it is.
pub with_trace-kept :
    (f : Flags) (frames : List ℕ) (r : Record)
    → f.racez_stacktrace ≢ 0
    → length r.stack_trace ≡ 10
    → (r' : Record) × (with_trace f frames r ≡ ok r')
      × (rounds r'.trace_depth ≡ kept frames)
      × (take (kept frames) r'.stack_trace ≡ take 8 (drop 2 frames))
      × (length r'.stack_trace ≡ 10)
      × (r'.op ≡ r.op)
with_trace-kept f frames r on t =
    let lit : (f.racez_stacktrace == 0) ≡ false = ground arith in
    let (size, buffer, done, n, l, same) = get_backtrace_lem frames 10 0 zeros (omega arith) refl in
    let few : size ≤ 10 = few_frames size frames n in
    let depth : rounds ((size + 2 ^ 32 - 2) % 2 ^ 32) ≡ size - 2 = depth_of size few in
    let (from, to) = room_for size buffer r.stack_trace few l t in
    let (trace, copied, l', same') =
      copy_slots_lem (size - 2) (drop 2 buffer) r.stack_trace from to in
    let third : take (size - 2) (drop 2 buffer) ≡ take 8 (drop 2 frames) =
      take-drop size buffer ∙ ap (drop 2) same ∙ drop-take frames in
    let number : size - 2 ≡ kept frames = number_kept size frames n in
    (
      record r { stack_trace = trace; trace_depth = (size + 2 ^ 32 - 2) % 2 ^ 32 },
      with_trace_of f frames r size buffer trace lit done depth copied,
      depth ∙ number,
      subst (λ k. take k trace ≡ take 8 (drop 2 frames)) number (same' ∙ third),
      l' ∙ t,
      refl,
    )
