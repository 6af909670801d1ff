-- ===== src/Profiler/Attach/Laws.antt =====
-- The map of descriptors (racez_pmuprofiler.cc) when a thread is attached.
use racez.Base.{
  Yields, Yields-bind, Yields-always, ℕ, ◌≡◌, refl, ap, ◌∙◌, Bool, true, false, ◌||◌, [], ◌∷◌,
  Option, none, some, arith, ◌==◌, Bool-cases, inl, inr, Outcome, ok, ◌>>=◌,
}
use racez.AddressMap.{Map, find, insert, assign, put, at_or_insert}
use racez.Sample.{Pmu}
use racez.Preload.{World, Process, Memory, pthread_mutex_lock, pthread_mutex_unlock}
use racez.Preload.Keeps.{Keeps, KeepsToo, Any, lock-Keeps, unlock-Keeps}
use racez.Profiler.Stops.{all_attached}
use racez.Profiler.Attach.{
  register_thread, attach_core_pebs, attach_nhm_pebs, attach_amd_ibs, attach_to, context_attach,
}
use racez.Profiler.Kernel.{Kernel, Attached, or_exit, given, check_buffer, fit_arrays}

abbrev pub has_key : ℕ → Map ℕ → Bool
has_key k [] = false
has_key k ((j, v) ∷ m) = j == k || has_key k m

pub has_key-insert : (k v : ℕ) (m : Map ℕ) → has_key k (insert k v m).0 ≡ true
unfolding insert
has_key-insert k v [] = ground arith
has_key-insert k v ((j, w) ∷ m) = let rest = has_key-insert k v m in ground (arith, rest)

has_key-insert_other :
    (i k v : ℕ) (m : Map ℕ) → has_key i m ≡ true → has_key i (insert k v m).0 ≡ true
unfolding insert
has_key-insert_other i k v [] h = cc
has_key-insert_other i k v ((j, w) ∷ m) h = ground (arith, has_key-insert_other i k v m)

has_key-assign : (i k v : ℕ) (m : Map ℕ) → has_key i (assign k v m) ≡ has_key i m
unfolding assign
has_key-assign i k v [] = refl
has_key-assign i k v ((j, w) ∷ m) = elim (Bool-cases (j == k)) [
  | inl same ↦ rw same
  | inr other ↦ rw (other, has_key-assign i k v m)
]

pub has_key-put : (k v : ℕ) (m : Map ℕ) → has_key k (put k v m) ≡ true
unfolding put
has_key-put k v m = has_key-assign k k v (insert k v m).0 ∙ has_key-insert k v m

pub has_key-put_other : (i k v : ℕ) (m : Map ℕ) → has_key i m ≡ true → has_key i (put k v m) ≡ true
unfolding put
has_key-put_other i k v m h = has_key-assign i k v (insert k v m).0 ∙ has_key-insert_other i k v m h

find-there : (k : ℕ) (m : Map ℕ) → has_key k m ≡ true → (w : ℕ) × (find k m ≡ some w)
unfolding find
find-there k [] h = cc
find-there k ((j, u) ∷ m) h = elim (Bool-cases (j == k)) [
  | inl same ↦ (u, rw same)
  | inr other ↦ (let (w, there) = find-there k m (ground arith) in (w, rw (other, there)))
]

-- A look-up of a key that is there leaves the map as it is.
pub at_or_insert-there : (k v : ℕ) (m : Map ℕ) → has_key k m ≡ true → (at_or_insert k v m).1 ≡ m
unfolding at_or_insert
at_or_insert-there k v m h = let (w, there) = find-there k m h in rw (at_or_insert, there)

all_attached-insert :
    (k v : ℕ) (m : Map ℕ)
    → (v == 0) ≡ false
    → all_attached m ≡ true
    → all_attached (insert k v m).0 ≡ true
unfolding insert
all_attached-insert k v [] h a = rw h
all_attached-insert k v ((j, w) ∷ m) h a = ground (arith, all_attached-insert k v m h)

all_attached-assign :
    (k v : ℕ) (m : Map ℕ)
    → (v == 0) ≡ false
    → all_attached m ≡ true
    → all_attached (assign k v m) ≡ true
unfolding assign
all_attached-assign k v [] h a = refl
all_attached-assign k v ((j, w) ∷ m) h a = ground (arith, all_attached-assign k v m h)

pub all_attached-put :
    (k v : ℕ) (m : Map ℕ)
    → (v == 0) ≡ false
    → all_attached m ≡ true
    → all_attached (put k v m) ≡ true
unfolding put
all_attached-put k v m h a =
    all_attached-assign k v (insert k v m).0 h (all_attached-insert k v m h a)

-- A thread that is registered: the map with its descriptor.
pub register_thread-enters :
    (w : World) (mutex tid : ℕ) (memory : Option Memory) (fd : ℕ) (p : Process)
    → Yields (Keeps (put tid fd p.tid_fd)) (register_thread w mutex tid memory fd p)
unfolding register_thread
register_thread-enters w mutex tid memory fd p =
    let entered = put tid fd p.tid_fd in
    Yields-bind (KeepsToo p.tid_fd) (Keeps entered) (pthread_mutex_lock w tid memory mutex 0 p)
      (λ r.
        pthread_mutex_unlock w tid memory mutex 0 (record (r.1) { tid_fd = put tid fd r.1.tid_fd })
        >>= λ s. ok s.1)
      (lock-Keeps p.tid_fd w tid memory mutex 0 p refl)
      (λ r h.
        Yields-bind (KeepsToo entered) (Keeps entered)
          (pthread_mutex_unlock w tid memory mutex 0
            (record (r.1) { tid_fd = put tid fd r.1.tid_fd }))
          (λ s. ok s.1)
          (unlock-Keeps entered w tid memory mutex 0
            (record (r.1) { tid_fd = put tid fd r.1.tid_fd }) (ap (put tid fd) h))
          (λ s k. k))

-- What an attached thread leaves: the map with its descriptor, which the kernel gave.
abbrev pub Enters : ℕ → Kernel → Process → Attached → Type 0
Enters tid k p a = (fd : ℕ) × (k.context ≡ some fd) × (a.process.tid_fd ≡ put tid fd p.tid_fd)

-- The end of the functions that attach: the entry, and what is left with it.
registered :
    (w : World) (mutex tid : ℕ) (memory : Option Memory) (fd : ℕ) (k : Kernel) (p : Process)
    (f : Process → Attached)
    → k.context ≡ some fd
    → ((q : Process) → (f q).process.tid_fd ≡ q.tid_fd)
    → Yields (Enters tid k p) (register_thread w mutex tid memory fd p >>= λ q. ok (f q))
registered w mutex tid memory fd k p f c same =
    Yields-bind (Keeps (put tid fd p.tid_fd)) (Enters tid k p)
      (register_thread w mutex tid memory fd p) (λ q. ok (f q))
      (register_thread-enters w mutex tid memory fd p) (λ q h. (fd, c, same q ∙ h))

with_context :
    (k : Kernel) (f : ℕ → Outcome Attached) (P : Attached → Type 0)
    → ((fd : ℕ) → k.context ≡ some fd → Yields P (f fd))
    → Yields P (given k.context >>= f)
with_context k f P h =
    elim k.context as (λ c. ((fd : ℕ) → c ≡ some fd → Yields P (f fd)) → Yields P (given c >>= f)) [
      | none ↦ λ _. tt
      | some fd ↦ λ g. g fd refl
    ]
      h

skip_result :
    {A : Type 0} (o : Outcome A) (f : A → Outcome Attached) (P : Attached → Type 0)
    → ((a : A) → Yields P (f a))
    → Yields P (o >>= f)
skip_result o f P h = Yields-bind Any P o f (Yields-always Any o (λ _. tt)) (λ a _. h a)

attach_core_pebs-Enters :
    (w : World) (mutex tid : ℕ) (memory : Option Memory) (k : Kernel) (p : Process)
    → Yields (Enters tid k p) (attach_core_pebs w mutex tid memory k p)
unfolding attach_core_pebs
attach_core_pebs-Enters w mutex tid memory k p =
    let P = Enters tid k p in
    skip_result (or_exit k.event_found) _ P (λ _. with_context k _ P (λ fd c.
      skip_result (given k.buffer) _ P (λ b. skip_result (check_buffer b) _ P (λ _.
        skip_result (given k.assigned) _ P (λ a.
          skip_result (fit_arrays a) _ P
            (λ _. registered w mutex tid memory fd k p _ c (λ q. refl)))))))

attach_nhm_pebs-Enters :
    (w : World) (mutex tid : ℕ) (memory : Option Memory) (k : Kernel) (p : Process)
    → Yields (Enters tid k p) (attach_nhm_pebs w mutex tid memory k p)
unfolding attach_nhm_pebs
attach_nhm_pebs-Enters w mutex tid memory k p =
    Yields-bind (Enters tid k p) (Enters tid k p) (attach_core_pebs w mutex tid memory k p) _
      (attach_core_pebs-Enters w mutex tid memory k p) (λ a h. h)

attach_amd_ibs-Enters :
    (w : World) (mutex tid : ℕ) (memory : Option Memory) (k : Kernel) (p : Process)
    → Yields (Enters tid k p) (attach_amd_ibs w mutex tid memory k p)
unfolding attach_amd_ibs
attach_amd_ibs-Enters w mutex tid memory k p =
    let P = Enters tid k p in
    with_context k _ P (λ fd c. skip_result (or_exit k.pmcs_written) _ P (λ _.
      skip_result (or_exit k.pmds_written) _ P (λ _. skip_result (or_exit k.loaded) _ P (λ _.
        skip_result (or_exit k.async_set) _ P (λ _.
          skip_result (or_exit k.signal_set) _ P
            (λ _. registered w mutex tid memory fd k p _ c (λ q. refl)))))))

attach_to-Enters :
    (pmu : Pmu) (w : World) (mutex tid : ℕ) (memory : Option Memory) (k : Kernel) (p : Process)
    → Yields (Enters tid k p) (attach_to pmu w mutex tid memory k p)
attach_to-Enters Pmu.intel_core w mutex tid memory k p =
    attach_core_pebs-Enters w mutex tid memory k p
attach_to-Enters Pmu.intel_nhm w mutex tid memory k p =
    attach_nhm_pebs-Enters w mutex tid memory k p
attach_to-Enters Pmu.amd64 w mutex tid memory k p = attach_amd_ibs-Enters w mutex tid memory k p
attach_to-Enters (Pmu.other n) w mutex tid memory k p = tt

pub context_attach-Enters :
    (w : World) (mutex tid : ℕ) (memory : Option Memory) (k : Kernel) (p : Process)
    → Yields (Enters tid k p) (context_attach w mutex tid memory k p)
unfolding context_attach
context_attach-Enters w mutex tid memory k p =
    skip_result (or_exit k.initialized) _ (Enters tid k p) (λ _.
      Yields-bind (Enters tid k p) (Enters tid k p)
        (attach_to k.pmu w mutex tid memory k (record p { pmu = k.pmu })) _
        (attach_to-Enters k.pmu w mutex tid memory k (record p { pmu = k.pmu })) (λ a h. h))
