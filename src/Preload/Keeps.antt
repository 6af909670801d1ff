-- ===== src/Preload/Keeps.antt =====
-- The wrappers of racez_preload.c leave the map of descriptors as it is.
use racez.Base.{
  Yields, Yields-bind, Yields-always, ℕ, ◌≡◌, Bool, true, false, not, ◌&&◌, List, Option, ◌==◌,
  if◌then◌else◌, Outcome, ok, fault, ◌>>=◌, assert,
}
use racez.Record.{Record}
use racez.AddressMap.{Map}
use racez.Buffer.{write_record}
use racez.Lockset.{Tls, add_one_mutex, remove_one_mutex}
use racez.Preload.{
  World, Process, Memory, once, preload_init, call, resolve, log_if, malloc, free, has_lockset,
  on_lockset, pthread_mutex_lock, pthread_mutex_unlock,
}

-- The map of descriptors is as it was.
abbrev pub Keeps : Map ℕ → Process → Type 0
Keeps m p = p.tid_fd ≡ m

abbrev pub KeepsToo : Map ℕ → ℕ × Process → Type 0
KeepsToo m r = r.1.tid_fd ≡ m

abbrev pub Any {ℓ} : {A : Type ℓ} → A → Type 0
Any a = Unit {0}

-- A test before a step that keeps the map.
pub guarded :
    {A : Type 0} (P : A → Type 0) (o : Outcome (Unit {0})) (x : Outcome A)
    → Yields P x
    → Yields P (o >>= λ _. x)
guarded P o x h = Yields-bind Any P o (λ _. x) (Yields-always Any o (λ _. tt)) (λ _ _. h)

pub chosen :
    {A : Type 0} (P : A → Type 0) (b : Bool) (x y : Outcome A)
    → Yields P x
    → Yields P y
    → Yields P (if b then x else y)
chosen P true x y h k = h
chosen P false x y h k = k

module _ (m : Map ℕ) where
  once-Keeps : (w : World) (p : Process) → Keeps m p → Keeps m (once w p)
  unfolding once preload_init
  once-Keeps w p h = on p.initialized
    where
      on : (b : Bool) → Keeps m (if b then p else preload_init w p)
      on true = h
      on false = h

  log_if-Keeps :
      (flag : ℕ) (r : Record) (p : Process) → Keeps m p → Yields (Keeps m) (log_if flag r p)
  unfolding log_if
  log_if-Keeps flag r p h = chosen (Keeps m) (flag == 0) _ _ h (
      chosen (Keeps m) (p.racez_enable == 0) _ _ h (
        Yields-bind Any (Keeps m) (write_record _ _ _) _ (Yields-always Any _ (λ _. tt))
          (λ b _. h)))

  pub malloc-Keeps :
      (w : World) (tid size result : ℕ) (p : Process)
      → Keeps m p
      → Yields (KeepsToo m) (malloc w tid size result p)
  unfolding malloc
  malloc-Keeps w tid size result p h = guarded (KeepsToo m) (call _) _ (
      Yields-bind (Keeps m) (KeepsToo m) (log_if _ _ _) _ (log_if-Keeps _ _ _ (once-Keeps w p h))
        (λ q k. k))

  pub free-Keeps :
      (w : World) (tid pointer : ℕ) (p : Process)
      → Keeps m p
      → Yields (Keeps m) (free w tid pointer p)
  unfolding free
  free-Keeps w tid pointer p h =
      guarded (Keeps m) (call _) _ (log_if-Keeps _ _ _ (once-Keeps w p h))

  on_lockset-Keeps :
      (method : Option (List ℕ) → ℕ → Tls → Outcome Tls) (w : World) (tid : ℕ)
      (memory : Option Memory) (mutex : ℕ) (p : Process)
      → Keeps m p
      → Yields (Keeps m) (on_lockset method w tid memory mutex p)
  unfolding on_lockset
  on_lockset-Keeps method w tid memory mutex p h =
      Yields-bind (KeepsToo m) (Keeps m) (if _ then ok (0, p) else malloc _ _ _ _ p) _
        (chosen (KeepsToo m) (has_lockset (p.tls tid)) _ _ h (malloc-Keeps _ _ _ _ p h))
        (λ r k.
          Yields-bind Any (Keeps m) (method _ _ _) _ (Yields-always Any _ (λ _. tt)) (λ _ _. k))

  after_lock :
      (o : Outcome Process) (result : ℕ)
      → Yields (Keeps m) o
      → Yields (KeepsToo m) (
          o >>= λ q. assert (not (q.real.mutex_lock == 0)) >>= λ _.
          call q.real.mutex_lock >>= λ _. ok (result, q))
  after_lock (ok q) result h =
      guarded (KeepsToo m) (assert (not (q.real.mutex_lock == 0)))
        (call q.real.mutex_lock >>= λ _. ok (result, q))
        (guarded (KeepsToo m) (call q.real.mutex_lock) (ok (result, q)) h)
  after_lock (fault e) result h = tt

  pub lock-Keeps :
      (w : World) (tid : ℕ) (memory : Option Memory) (mutex result : ℕ) (p : Process)
      → Keeps m p
      → Yields (KeepsToo m) (pthread_mutex_lock w tid memory mutex result p)
  unfolding pthread_mutex_lock
  lock-Keeps w tid memory mutex result p h =
      let q = once w p in
      let kept = once-Keeps w p h in
      after_lock
        (if q.flags.racez_lockset == 0
          then ok (record q {
            real = record (q.real) { mutex_lock = resolve q.real.mutex_lock w.symbols.mutex_lock };
          })
          else on_lockset add_one_mutex w tid memory mutex q)
        result
        (chosen (Keeps m) (q.flags.racez_lockset == 0)
          (ok (record q {
            real = record (q.real) { mutex_lock = resolve q.real.mutex_lock w.symbols.mutex_lock };
          }))
          (on_lockset add_one_mutex w tid memory mutex q) kept
          (on_lockset-Keeps add_one_mutex w tid memory mutex q kept))

  after_unlock :
      (pointer : ℕ) (o : Outcome Process) (result : ℕ)
      → Yields (Keeps m) o
      → Yields (KeepsToo m) (call pointer >>= λ _. o >>= λ q. ok (result, q))
  after_unlock pointer (ok q) result h = guarded (KeepsToo m) (call pointer) (ok (result, q)) h
  after_unlock pointer (fault e) result h =
      guarded (KeepsToo m) (call pointer) (fault e >>= λ q. ok (result, q)) tt

  pub unlock-Keeps :
      (w : World) (tid : ℕ) (memory : Option Memory) (mutex result : ℕ) (p : Process)
      → Keeps m p
      → Yields (KeepsToo m) (pthread_mutex_unlock w tid memory mutex result p)
  unfolding pthread_mutex_unlock
  unlock-Keeps w tid memory mutex result p h =
      let kept = once-Keeps w p h in
      let q : Process = record (once w p) {
        real = record ((once w p).real) {
          mutex_unlock = resolve (once w p).real.mutex_unlock w.symbols.mutex_unlock;
        };
      } in
      after_unlock q.real.mutex_unlock
        (if not (q.flags.racez_lockset == 0) && not (q.racez_enable == 0)
          then on_lockset remove_one_mutex w tid memory mutex q
          else ok q)
        result
        (chosen (Keeps m) (not (q.flags.racez_lockset == 0) && not (q.racez_enable == 0))
          (on_lockset remove_one_mutex w tid memory mutex q) (ok q)
          (on_lockset-Keeps remove_one_mutex w tid memory mutex q kept) kept)
