-- ===== src/Preload/Mutexes.antt =====
-- The wrappers of the mutex functions (racez_preload.c) and the lock set of the calling thread.
use racez.Base.{
  ℕ, ◌≡◌, ◌≢◌, refl, sym, ap, ◌∙◌, true, false, List, [], ◌∷◌, ◌++◌, Option, some, arith, ◌==◌,
  if◌then◌else◌, contains, Outcome, ok, ◌>>=◌,
}
use racez.Lockset.{
  Lockset, Tls, held, add_locked, remove_locked, ensure_lockset, get_per_thread_lockset,
  add_one_mutex, remove_one_mutex,
}
use racez.Lockset.Contents.{IsValid, add_locked_lem, remove-add}
use racez.Preload.{
  World, Process, Memory, preload_init, has_lockset, once, on_lockset, set_tls, slots_of,
  pthread_mutex_lock, pthread_mutex_unlock,
}

-- The library is set up with the lock sets on, and the thread has a valid lock set.
pub record IsReady (p : Process) (tid : ℕ) (l : Lockset) : Type 0 where
  pub initialized : p.initialized ≡ true
  pub lockset_on : (p.flags.racez_lockset == 0) ≡ false
  pub lock_found : (p.real.mutex_lock == 0) ≡ false
  pub unlock_found : (p.real.mutex_unlock == 0) ≡ false
  pub created : p.tls tid ≡ record { key_created = true; lockset = some l }
  pub valid : IsValid l

-- The process with another lock set of the thread.
abbrev pub with_locks_of : ℕ → Lockset → Process → Process
with_locks_of tid l p = record p {
  tls = set_tls tid (record { key_created = true; lockset = some l }) p.tls;
}

pub set_tls_self : (tid : ℕ) (t : Tls) (tls : ℕ → Tls) → set_tls tid t tls tid ≡ t
set_tls_self tid t tls = let same : (tid == tid) ≡ true = ground arith in rw same

pub once_done : (w : World) (p : Process) → p.initialized ≡ true → once w p ≡ p
unfolding once
once_done w p h = ap (λ b. if b then p else preload_init w p) h

on_lockset_known :
    (method : Option (List ℕ) → ℕ → Tls → Outcome Tls) (w : World) (tid : ℕ)
    (memory : Option Memory) (m : ℕ) (p : Process) (t t' : Tls)
    → p.tls tid ≡ t
    → has_lockset t ≡ true
    → method (slots_of memory) m t ≡ ok t'
    → on_lockset method w tid memory m p ≡ ok (record p { tls = set_tls tid t' p.tls })
unfolding on_lockset
on_lockset_known method w tid memory m p t t' h k e = rw (h, k, h, e)

abbrev pub thread : Lockset → Tls
thread l = record { key_created = true; lockset = some l }

add_lem :
    (slots : Option (List ℕ)) (m : ℕ) (l l' : Lockset)
    → add_locked m l ≡ ok l'
    → add_one_mutex slots m (thread l) ≡ ok (thread l')
unfolding add_one_mutex ensure_lockset get_per_thread_lockset
add_lem slots m l l' e = ap (λ o. o >>= λ k. ok (thread k)) e

remove_lem :
    (slots : Option (List ℕ)) (m : ℕ) (l l' : Lockset)
    → remove_locked m l ≡ ok l'
    → remove_one_mutex slots m (thread l) ≡ ok (thread l')
unfolding remove_one_mutex ensure_lockset get_per_thread_lockset
remove_lem slots m l l' e = ap (λ o. o >>= λ k. ok (thread k)) e

pub lock_lem :
    (w : World) (tid : ℕ) (memory : Option Memory) (m result : ℕ) (p : Process) (l l' : Lockset)
    → IsReady p tid l
    → add_locked m l ≡ ok l'
    → pthread_mutex_lock w tid memory m result p ≡ ok (result, with_locks_of tid l' p)
unfolding pthread_mutex_lock
lock_lem w tid memory m result p l l' r e = rw (
  once_done w p r.initialized,
  r.lockset_on,
  on_lockset_known add_one_mutex w tid memory m p (thread l) (thread l') r.created refl
      (add_lem (slots_of memory) m l l' e),
  r.lock_found,
)

pub unlock_lem :
    (w : World) (tid : ℕ) (memory : Option Memory) (m result : ℕ) (p : Process) (l l' : Lockset)
    → IsReady p tid l
    → (p.racez_enable == 0) ≡ false
    → remove_locked m l ≡ ok l'
    → pthread_mutex_unlock w tid memory m result p ≡ ok (result, with_locks_of tid l' p)
unfolding pthread_mutex_unlock
unlock_lem w tid memory m result p l l' r on e = rw (
  once_done w p r.initialized,
  r.unlock_found,
  r.unlock_found,
  r.lockset_on,
  on,
  on_lockset_known remove_one_mutex w tid memory m p (thread l) (thread l') r.created refl
      (remove_lem (slots_of memory) m l l' e),
)

pub unlock_early :
    (w : World) (tid : ℕ) (memory : Option Memory) (m result : ℕ) (p : Process) (l : Lockset)
    → IsReady p tid l
    → (p.racez_enable == 0) ≡ true
    → pthread_mutex_unlock w tid memory m result p ≡ ok (result, p)
unfolding pthread_mutex_unlock
unlock_early w tid memory m result p l r off =
    rw (once_done w p r.initialized, r.unlock_found, r.unlock_found, r.lockset_on, off)

pub IsReady-with :
    (tid : ℕ) (p : Process) (l l' : Lockset)
    → IsReady p tid l
    → IsValid l'
    → IsReady (with_locks_of tid l' p) tid l'
IsReady-with tid p l l' r v = record {
  initialized = r.initialized;
  lockset_on = r.lockset_on;
  lock_found = r.lock_found;
  unlock_found = r.unlock_found;
  created = set_tls_self tid (thread l') p.tls;
  valid = v;
}

set_tls_other :
    (tid other : ℕ) (t : Tls) (tls : ℕ → Tls) → other ≢ tid → set_tls tid t tls other ≡ tls other
set_tls_other tid other t tls h = let differ : (tid == other) ≡ false = ground arith in rw differ

-- A thread takes a mutex and gives it back, and the real functions return 0.
abbrev pub lock_unlock : World → ℕ → Option Memory → ℕ → Process → Outcome (ℕ × Process)
lock_unlock w tid memory m p = do
  (_, p') ← pthread_mutex_lock w tid memory m 0 p
  pthread_mutex_unlock w tid memory m 0 p'

-- While the profiler is enabled, a lock and its unlock leave the held locks of the thread as they were,
-- in their order, if there was room and the mutex was not held; another thread's lock set and the log
-- stay the same.
pub lock_unlock_lem :
    (w : World) (tid other : ℕ) (memory : Option Memory) (m : ℕ) (p : Process) (l : Lockset)
    → IsReady p tid l
    → (p.racez_enable == 0) ≡ false
    → l.overflow ≡ false
    → contains m (held l) ≡ false
    → other ≢ tid
    → (p' : Process) × (l' : Lockset) × (lock_unlock w tid memory m p ≡ ok (0, p'))
      × (p'.tls tid ≡ record { key_created = true; lockset = some l' })
      × IsValid l'
      × (held l' ≡ held l)
      × (p'.tls other ≡ p.tls other)
      × (p'.buffer ≡ p.buffer)
lock_unlock_lem w tid other memory m p l r on room new o =
    let (l₁, added, v₁, _) = add_locked_lem m l r.valid in
    let (l', both, v, same) = remove-add m l r.valid room new in
    let removed : remove_locked m l₁ ≡ ok l' = ap (λ o. o >>= remove_locked m) (sym added) ∙ both in
    let p₁ : Process = with_locks_of tid l₁ p in
    let ready = IsReady-with tid p l l₁ r v₁ in
    (
      with_locks_of tid l' p₁,
      l',
      rw (
        lock_lem w tid memory m 0 p l l₁ r added,
        unlock_lem w tid memory m 0 p₁ l₁ l' ready on removed,
      ),
      set_tls_self tid (thread l') p₁.tls,
      v,
      same,
      set_tls_other tid other (thread l') p₁.tls o ∙ set_tls_other tid other (thread l₁) p.tls o,
      refl,
    )

-- Before `racez_start`, and after `racez_stop`, a lock is entered in the lock set but its unlock is
-- not: the mutex stays among the held locks of the thread, unless the set is full.
pub lock_unlock_disabled :
    (w : World) (tid : ℕ) (memory : Option Memory) (m : ℕ) (p : Process) (l : Lockset)
    → IsReady p tid l
    → p.racez_enable ≡ 0
    → (p' : Process) × (l' : Lockset) × (lock_unlock w tid memory m p ≡ ok (0, p'))
      × (p'.tls tid ≡ record { key_created = true; lockset = some l' })
      × IsValid l'
      × (held l' ≡ (if l.overflow then held l else held l ++ m ∷ []))
lock_unlock_disabled w tid memory m p l r off =
    let (l₁, added, v₁, same) = add_locked_lem m l r.valid in
    let p₁ : Process = with_locks_of tid l₁ p in
    let ready = IsReady-with tid p l l₁ r v₁ in
    let is_off : (p₁.racez_enable == 0) ≡ true = ground (arith, off) in
    (
      p₁,
      l₁,
      rw (
        lock_lem w tid memory m 0 p l l₁ r added,
        unlock_early w tid memory m 0 p₁ l₁ ready is_off,
      ),
      set_tls_self tid (thread l₁) p.tls,
      v₁,
      same,
    )
