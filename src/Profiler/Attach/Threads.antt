-- ===== src/Profiler/Attach/Threads.antt =====
-- The threads of a profiled program (racez_preload.c, racez_pmuprofiler.cc): they are attached, sampled,
-- and call the wrappers, in any order. A sample comes only to a thread that was attached.
use racez.Base.{
  Yields, Yields-bind, Yields-always, Yields-result, ℕ, ◌≡◌, refl, sym, ap, subst, ◌∙◌, true, false,
  List, [], ◌∷◌, Option, some, arith, ◌==◌, contains, Bool-cases, inl, inr, ok,
}
use racez.AddressMap.{Map, put}
use racez.Sample.{zero_record, with_trace}
use racez.Preload.{World, Process, Memory, malloc, free, pthread_mutex_lock, pthread_mutex_unlock}
use racez.Preload.Keeps.{Keeps, KeepsToo, Any, malloc-Keeps, free-Keeps, lock-Keeps, unlock-Keeps}
use racez.Profiler.{Signal, handle, signal_handler, stop_threads}
use racez.Profiler.Stops.{all_attached, stop_threads_lem}
use racez.Profiler.Attach.{perthread_attach, racez_thread_start_func}
use racez.Profiler.Kernel.{Kernel, Attached}
use racez.Profiler.Attach.Laws.{
  Enters, has_key, has_key-put, has_key-put_other, at_or_insert-there, all_attached-put,
  context_attach-Enters,
}

-- The process, and the threads that were attached.
pub record Threads : Type 0 where
  pub process : Process
  pub attached : List ℕ

-- A descriptor is not 0, which is open already.
pub data Step (w : World) (s : Threads) : Threads → Type 0 where
  begin :
      (mutex tid fd : ℕ) (memory : Option Memory) (k : Kernel) {a : Attached}
      → (s.process.racez_enable == 0) ≡ false
      → k.context ≡ some fd
      → (fd == 0) ≡ false
      → racez_thread_start_func w mutex tid memory k s.process ≡ ok a
      → Step w s (record { process = a.process; attached = tid ∷ s.attached })
  sample :
      (g : Signal) {p : Process}
      → contains g.tid s.attached ≡ true
      → signal_handler g s.process ≡ ok p
      → Step w s (record s { process = p })
  lock :
      (tid mutex result : ℕ) (memory : Option Memory) {r : ℕ × Process}
      → pthread_mutex_lock w tid memory mutex result s.process ≡ ok r
      → Step w s (record s { process = r.1 })
  unlock :
      (tid mutex result : ℕ) (memory : Option Memory) {r : ℕ × Process}
      → pthread_mutex_unlock w tid memory mutex result s.process ≡ ok r
      → Step w s (record s { process = r.1 })
  allocate :
      (tid size result : ℕ) {r : ℕ × Process}
      → malloc w tid size result s.process ≡ ok r
      → Step w s (record s { process = r.1 })
  release :
      (tid pointer : ℕ) {p : Process}
      → free w tid pointer s.process ≡ ok p
      → Step w s (record s { process = p })

-- From a process whose map of descriptors is empty.
pub data Reach (w : World) (p : Process) : Threads → Type 0 where
  first : p.tid_fd ≡ [] → Reach w p (record { process = p; attached = [] })
  next : {s t : Threads} → Reach w p s → Step w s t → Reach w p t

-- The attached threads have descriptors, and no descriptor is 0.
record IsKnown (attached : List ℕ) (m : Map ℕ) : Type 0 where
  pub no_zero : all_attached m ≡ true
  pub known : (tid : ℕ) → contains tid attached ≡ true → has_key tid m ≡ true

kept :
    (s : Threads) (p : Process)
    → p.tid_fd ≡ s.process.tid_fd
    → IsKnown s.attached s.process.tid_fd
    → IsKnown s.attached p.tid_fd
kept s p h inv = subst (IsKnown s.attached) (sym h) inv

sample-Keeps :
    (g : Signal) (p : Process)
    → has_key g.tid p.tid_fd ≡ true
    → Yields (Keeps p.tid_fd) (signal_handler g p)
unfolding signal_handler
sample-Keeps g p h =
    Yields-bind Any (Keeps p.tid_fd) (with_trace p.flags g.frames zero_record) _
      (Yields-always Any _ (λ _. tt))
      (λ r _.
        Yields-bind Any (Keeps p.tid_fd) (handle p.flags p.pmu (p.tls g.tid) r g p.buffer) _
          (Yields-always Any _ (λ _. tt)) (λ b _. at_or_insert-there g.tid 0 p.tid_fd h))

begun-Enters :
    (w : World) (mutex tid : ℕ) (memory : Option Memory) (k : Kernel) (p : Process)
    → (p.racez_enable == 0) ≡ false
    → Yields (Enters tid k p) (racez_thread_start_func w mutex tid memory k p)
unfolding racez_thread_start_func perthread_attach
begun-Enters w mutex tid memory k p on =
    subst (Yields (Enters tid k p)) (sym (rw on)) (context_attach-Enters w mutex tid memory k p)

begun :
    (w : World) (s : Threads) (mutex tid fd : ℕ) (memory : Option Memory) (k : Kernel)
    (a : Attached)
    → (s.process.racez_enable == 0) ≡ false
    → k.context ≡ some fd
    → (fd == 0) ≡ false
    → racez_thread_start_func w mutex tid memory k s.process ≡ ok a
    → IsKnown s.attached s.process.tid_fd
    → IsKnown (tid ∷ s.attached) a.process.tid_fd
begun w s mutex tid fd memory k a on c some_fd done inv =
    let (fd', c', entered) =
      Yields-result (Enters tid k s.process)
        (racez_thread_start_func w mutex tid memory k s.process) a
        (begun-Enters w mutex tid memory k s.process on) done in
    let same : fd' ≡ fd = cc in
    subst (IsKnown (tid ∷ s.attached)) (sym entered) (record {
      no_zero =
          all_attached-put tid fd' s.process.tid_fd (ap (λ n. n == 0) same ∙ some_fd) inv.no_zero;
      known = λ i h. elim (Bool-cases (tid == i)) [
        | inl this ↦
            (let e : tid ≡ i = ground arith in
              subst (λ j. has_key j (put tid fd' s.process.tid_fd) ≡ true) e
                (has_key-put tid fd' s.process.tid_fd))
        | inr other ↦ has_key-put_other i tid fd' s.process.tid_fd (inv.known i (ground arith))
      ];
    })

Step-IsKnown :
    (w : World) (s t : Threads)
    → Step w s t
    → IsKnown s.attached s.process.tid_fd
    → IsKnown t.attached t.process.tid_fd
Step-IsKnown w s t (Step.begin mutex tid fd memory k {a} on c some_fd done) inv =
    begun w s mutex tid fd memory k a on c some_fd done inv
Step-IsKnown w s t (Step.sample g {p} there done) inv =
    kept s p
      (Yields-result (Keeps s.process.tid_fd) (signal_handler g s.process) p
        (sample-Keeps g s.process (inv.known g.tid there)) done)
      inv
Step-IsKnown w s t (Step.lock tid mutex result memory {r} done) inv =
    kept s r.1
      (Yields-result (KeepsToo s.process.tid_fd)
        (pthread_mutex_lock w tid memory mutex result s.process) r
        (lock-Keeps s.process.tid_fd w tid memory mutex result s.process refl) done)
      inv
Step-IsKnown w s t (Step.unlock tid mutex result memory {r} done) inv =
    kept s r.1
      (Yields-result (KeepsToo s.process.tid_fd)
        (pthread_mutex_unlock w tid memory mutex result s.process) r
        (unlock-Keeps s.process.tid_fd w tid memory mutex result s.process refl) done)
      inv
Step-IsKnown w s t (Step.allocate tid size result {r} done) inv =
    kept s r.1
      (Yields-result (KeepsToo s.process.tid_fd) (malloc w tid size result s.process) r
        (malloc-Keeps s.process.tid_fd w tid size result s.process refl) done)
      inv
Step-IsKnown w s t (Step.release tid pointer {p} done) inv =
    kept s p
      (Yields-result (Keeps s.process.tid_fd) (free w tid pointer s.process) p
        (free-Keeps s.process.tid_fd w tid pointer s.process refl) done)
      inv

Reach-IsKnown :
    (w : World) (p : Process) (s : Threads) → Reach w p s → IsKnown s.attached s.process.tid_fd
Reach-IsKnown w p s (Reach.first none_yet) = record {
  no_zero = subst (λ m. all_attached m ≡ true) (sym none_yet) refl;
  known = λ tid h. cc;
}
Reach-IsKnown w p s (Reach.next {s = before} r step) =
    Step-IsKnown w before s step (Reach-IsKnown w p before r)

-- In every state that threads reach by attaches, samples and calls of the wrappers, each attached thread
-- has a descriptor in the map and no descriptor is 0, so that the loop of the stop fails at no assertion:
-- no look-up of the signal handler enters a thread without one.
pub Reach-stops :
    (w : World) (p : Process) (s : Threads)
    → Reach w p s
    → (stop_threads s.process.tid_fd ≡ ok tt)
      × ((tid : ℕ) → contains tid s.attached ≡ true → has_key tid s.process.tid_fd ≡ true)
Reach-stops w p s r =
    let inv = Reach-IsKnown w p s r in (stop_threads_lem s.process.tid_fd inv.no_zero, inv.known)
