-- ===== src/Report/Laws.antt =====
-- `report_error` of tools/detect.cc on records whose arrays hold what their counters say.
use racez.Base.{
  sym, ◌∙◌, ℕ, zero, suc, ◌+◌, ◌≤◌, ◌≡◌, refl, ap, Bool, true, ◌&&◌, List, [], ◌∷◌, Option, some,
  none, arith, leb, rounds, length, take, all, Outcome, ok, fault, Fault, ◌>>=◌, cons_ok, map,
}
use racez.Record.{Record}
use racez.Report.Filename.{Symbolizer, get_filename, Answers, get_filename-Answers}
use racez.Report.{Shown, Warning, first_slots, call_names, show_access, show_accesses, report_error}

-- The locks and the stack trace fit their arrays.
abbrev pub showable : Record → Bool
showable r =
    leb (rounds r.op.lock_count) (length r.op.lockset)
    && leb (rounds r.trace_depth) (length r.stack_trace)

-- A call of `get_filename` ends in the fault.
pub record NameFails (w : Symbolizer) (e : Fault) : Type 0 where
  pub addr : ℕ
  pub buffer : Option (List ℕ)
  pub fails : get_filename w addr buffer ≡ fault e

-- The result is as said, or the run stopped in a call of `get_filename`.
abbrev pub OrUnnamed {ℓ} : {A : Type ℓ} → Symbolizer → (A → Type 0) → Outcome A → Type 0
OrUnnamed w P (ok a) = P a
OrUnnamed w P (fault e) = NameFails w e

pub OrUnnamed-bind {ℓ κ} :
    {A : Type ℓ} {B : Type κ} (w : Symbolizer) (P : A → Type 0) (Q : B → Type 0) (o : Outcome A)
    (f : A → Outcome B)
    → OrUnnamed w P o
    → ((a : A) → P a → OrUnnamed w Q (f a))
    → OrUnnamed w Q (o >>= f)
OrUnnamed-bind w P Q (ok a) f h k = k a h
OrUnnamed-bind w P Q (fault e) f h k = h

no_fault : (name : List ℕ) (e : Fault) → ok name ≡ fault e → ⊥
no_fault name e h = cc

-- Where addr2line answers, a run does not stop there.
pub OrUnnamed-Answers {ℓ} :
    {A : Type ℓ} (w : Symbolizer) (P : A → Type 0) (o : Outcome A)
    → ((addr : ℕ) → Answers w addr)
    → OrUnnamed w P o
    → (a : A) × (o ≡ ok a) × P a
OrUnnamed-Answers w P (ok a) v h = (a, refl, h)
OrUnnamed-Answers w P (fault e) v h =
    let named = get_filename-Answers w h.addr h.buffer (v h.addr) in
    absurd (no_fault (v h.addr).line e (sym named ∙ h.fails))

named :
    (w : Symbolizer) (addr : ℕ) (buffer : Option (List ℕ)) (o : Outcome (List ℕ))
    → get_filename w addr buffer ≡ o
    → OrUnnamed w (λ n. Unit {0}) o
named w addr buffer (ok n) e = tt
named w addr buffer (fault f) e = record { addr = addr; buffer = buffer; fails = e }

get_filename_lem :
    (w : Symbolizer) (addr : ℕ) (buffer : Option (List ℕ))
    → OrUnnamed w (λ n. Unit {0}) (get_filename w addr buffer)
get_filename_lem w addr buffer = named w addr buffer (get_filename w addr buffer) refl

first_slots_lem : (n : ℕ) (xs : List ℕ) → n ≤ length xs → first_slots n xs ≡ ok (take n xs)
unfolding first_slots
first_slots_lem zero xs h = refl
first_slots_lem (suc n) [] h = absurd (omega arith)
first_slots_lem (suc n) (x ∷ xs) h = ap (cons_ok x) (first_slots_lem n xs (omega arith))

call_names_lem :
    (w : Symbolizer) (n : ℕ) (sites : List ℕ) (buffer : Option (List ℕ))
    → n ≤ length sites
    → OrUnnamed w (λ p. Unit {0}) (call_names w n sites buffer)
unfolding call_names
call_names_lem w zero sites buffer h = tt
call_names_lem w (suc n) [] buffer h = absurd (omega arith)
call_names_lem w (suc n) (x ∷ sites) buffer h =
    OrUnnamed-bind w _ _ (get_filename w x buffer) _ (get_filename_lem w x buffer) (λ name t.
      OrUnnamed-bind w _ _ (call_names w n sites (some name)) _
        (call_names_lem w n sites (some name) (omega arith)) (λ p t. tt))

show_access_lem :
    (w : Symbolizer) (i : ℕ) (r : Record) (buffer : Option (List ℕ))
    → showable r ≡ true
    → OrUnnamed w
        (λ p. (p.0.index ≡ r.record_no) × (p.0.tid ≡ r.thread_id))
        (show_access w i r buffer)
unfolding show_access
show_access_lem w i r buffer h =
    let locks = first_slots_lem (rounds r.op.lock_count) r.op.lockset (ground arith) in
    OrUnnamed-bind w _ _ (get_filename w r.op.pip buffer) _ (get_filename_lem w r.op.pip buffer)
      (λ name t. rw locks (
        OrUnnamed-bind w _ _ (call_names w (rounds r.trace_depth) r.stack_trace (some name)) _
          (call_names_lem w (rounds r.trace_depth) r.stack_trace (some name) (ground arith))
          (λ p t. (refl, refl))))

cons_lem :
    (w : Symbolizer) (s : Shown) (r : Record) (rs : List Record) (o : Outcome (List Shown))
    → s.index ≡ r.record_no
    → s.tid ≡ r.thread_id
    → OrUnnamed w
        (λ ss.
          (map (λ s. s.index) ss ≡ map (λ r. r.record_no) rs)
          × (map (λ s. s.tid) ss ≡ map (λ r. r.thread_id) rs))
        o
    → OrUnnamed w
        (λ ss.
          (map (λ s. s.index) ss ≡ map (λ r. r.record_no) (r ∷ rs))
          × (map (λ s. s.tid) ss ≡ map (λ r. r.thread_id) (r ∷ rs)))
        (cons_ok s o)
cons_lem w s r rs (ok ss) e e' h = (cc, cc)
cons_lem w s r rs (fault f) e e' h = h

show_accesses_lem :
    (w : Symbolizer) (i : ℕ) (rs : List Record) (buffer : Option (List ℕ))
    → all showable rs ≡ true
    → OrUnnamed w
        (λ ss.
          (map (λ s. s.index) ss ≡ map (λ r. r.record_no) rs)
          × (map (λ s. s.tid) ss ≡ map (λ r. r.thread_id) rs))
        (show_accesses w i rs buffer)
unfolding show_accesses
show_accesses_lem w i [] buffer h = (refl, refl)
show_accesses_lem w i (r ∷ rs) buffer h =
    OrUnnamed-bind w (λ p. (p.0.index ≡ r.record_no) × (p.0.tid ≡ r.thread_id)) _
      (show_access w i r buffer) _ (show_access_lem w i r buffer (ground arith))
      (λ p e.
        cons_lem w p.0 r rs (show_accesses w (suc i) rs p.1) e.0 e.1
          (show_accesses_lem w (suc i) rs p.1 (ground arith)))

-- The warning shows every record of the set, in its order, under the next number.
pub record IsWarning (records : List Record) (a count : ℕ) (p : ℕ × Warning) : Type 0 where
  pub counted : p.0 ≡ count + 1
  pub number : p.1.number ≡ count + 1
  pub location : p.1.location ≡ a
  pub indices : map (λ s. s.index) p.1.accesses ≡ map (λ r. r.record_no) records
  pub tids : map (λ s. s.tid) p.1.accesses ≡ map (λ r. r.thread_id) records

pub report_error_lem :
    (w : Symbolizer) (records : List Record) (a count : ℕ)
    → all showable records ≡ true
    → OrUnnamed w (IsWarning records a count) (report_error w records a count)
unfolding report_error
report_error_lem w records a count h =
    OrUnnamed-bind w _ _ (show_accesses w 1 records none) _ (show_accesses_lem w 1 records none h)
      (λ ss e. record { counted = refl; number = refl; location = refl; indices = e.0; tids = e.1 })
