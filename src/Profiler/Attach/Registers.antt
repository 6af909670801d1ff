-- ===== src/Profiler/Attach/Registers.antt =====
-- What a thread that is attached (racez_pmuprofiler.cc) has asked of libpfm and the kernel.
use mathlib.Core.Bool.{true≢false}
use racez.Base.{
  ◌+◌, ◌^◌, map, ℕ, ◌≡◌, refl, sym, ap, ◌∙◌, Bool, true, false, ◌&&◌, List, [], ◌∷◌, ◌++◌, Option,
  none, some, arith, ◌==◌, contains, Bool-cases, inl, inr, Outcome, ok, fault, exited, ◌>>=◌,
}
use racez.AddressMap.{Map, find, insert, assign, put}
use racez.Sample.{Pmu}
use racez.Lockset.{Lockset, held, remove_locked}
use racez.Lockset.Contents.{add_locked_lem, remove-add}
use racez.Preload.{World, Process, Memory}
use racez.Preload.Mutexes.{
  IsReady, IsReady-with, with_locks_of, thread, lock_lem, unlock_lem, set_tls_self,
}
use racez.Profiler.Signals.{is_pebs}
use racez.Profiler.Attach.Laws.{has_key, has_key-insert}
use racez.Profiler.Attach.{
  register_thread, attach_core_pebs, attach_nhm_pebs, attach_amd_ibs, attach_to, context_attach,
  program_requests,
}
use racez.Profiler.Kernel.{
  Kernel, Attached, Mapped, Assignment, Request, or_exit, given, check_buffer, fit_arrays, set_pmcs,
  set_pmds, Pmc, Pmd, blank_pmd,
}

find-assign_key : (k v : ℕ) (m : Map ℕ) → has_key k m ≡ true → find k (assign k v m) ≡ some v
unfolding find assign
find-assign_key k v [] h = cc
find-assign_key k v ((j, w) ∷ m) h = elim (Bool-cases (j == k)) [
  | inl same ↦ rw (same, same)
  | inr other ↦ rw (other, other, find-assign_key k v m (ground arith))
]

find-put : (k v : ℕ) (m : Map ℕ) → find k (put k v m) ≡ some v
unfolding put
find-put k v m = find-assign_key k v (insert k v m).0 (has_key-insert k v m)

register_thread_lem :
    (w : World) (mutex tid : ℕ) (memory : Option Memory) (fd : ℕ) (p : Process) (l : Lockset)
    → IsReady p tid l
    → (p.racez_enable == 0) ≡ false
    → l.overflow ≡ false
    → contains mutex (held l) ≡ false
    → (q : Process) × (l' : Lockset) × (register_thread w mutex tid memory fd p ≡ ok q)
      × (q.tid_fd ≡ put tid fd p.tid_fd)
      × (q.tls tid ≡ record { key_created = true; lockset = some l' })
      × (held l' ≡ held l)
unfolding register_thread
register_thread_lem w mutex tid memory fd p l r on room new =
    let (l₁, added, v₁, _) = add_locked_lem mutex l r.valid in
    let (l', both, v, same) = remove-add mutex l r.valid room new in
    let removed : remove_locked mutex l₁ ≡ ok l' =
      ap (λ o. o >>= remove_locked mutex) (sym added) ∙ both in
    let p₁ : Process = record (with_locks_of tid l₁ p) { tid_fd = put tid fd p.tid_fd } in
    let ready =
      IsReady-with tid (record p { tid_fd = put tid fd p.tid_fd }) l l₁
        (record {
          initialized = r.initialized;
          lockset_on = r.lockset_on;
          lock_found = r.lock_found;
          unlock_found = r.unlock_found;
          created = r.created;
          valid = r.valid;
        })
        v₁ in
    (
      with_locks_of tid l' p₁,
      l',
      rw (
        lock_lem w tid memory mutex 0 p l l₁ r added,
        unlock_lem w tid memory mutex 0 p₁ l₁ l' ready on removed,
      ),
      refl,
      set_tls_self tid (thread l') p₁.tls,
      same,
    )

-- What has to go well on the PMUs of Intel.
pub record IsAttachable (k : Kernel) (fd : ℕ) (b : Mapped) (a : Assignment) : Type 0 where
  pub initialized : k.initialized ≡ true
  pub event_found : k.event_found ≡ true
  pub context : k.context ≡ some fd
  pub buffer : k.buffer ≡ some b
  pub checked : check_buffer b ≡ ok tt
  pub assigned : k.assigned ≡ some a
  pub fits : fit_arrays a ≡ ok tt

-- The requests of the functions for Intel, but for those that initialise libpfm.
abbrev pub pebs_requests : Kernel → ℕ → ℕ → Assignment → List Request
pebs_requests k fd tid a =
    (Request.find_event
      ∷ Request.create_context (some k.sizes)
      ∷ Request.map_buffer fd k.sizes
      ∷ Request.dispatch_events true
      ∷ [])
    ++ (program_requests fd tid (set_pmcs true a.pmcs) (set_pmds a.pmds)
        ++ Request.enter fd ∷ Request.start fd ∷ [])

attach_core_lem :
    (w : World) (mutex tid : ℕ) (memory : Option Memory) (k : Kernel) (p q : Process) (fd : ℕ)
    (b : Mapped) (a : Assignment)
    → IsAttachable k fd b a
    → register_thread w mutex tid memory fd p ≡ ok q
    → attach_core_pebs w mutex tid memory k p
      ≡ ok (record { requests = pebs_requests k fd tid a; header = some b.address; process = q })
unfolding attach_core_pebs
attach_core_lem w mutex tid memory k p q fd b a i done =
    rw (i.event_found, i.context, i.buffer, i.checked, i.assigned, i.fits, done)

-- The requests to initialise libpfm.
abbrev initializations : Pmu → List Request
initializations Pmu.intel_nhm = Request.initialize ∷ Request.initialize ∷ []
initializations _ = Request.initialize ∷ []

attach_to_lem :
    (pmu : Pmu) (w : World) (mutex tid : ℕ) (memory : Option Memory) (k : Kernel) (p : Process)
    (r : Attached)
    → is_pebs pmu ≡ true
    → attach_core_pebs w mutex tid memory k p ≡ ok r
    → (attach_to pmu w mutex tid memory k p >>= λ a.
        ok (record a { requests = Request.initialize ∷ a.requests }))
      ≡ ok (record r { requests = initializations pmu ++ r.requests })
unfolding attach_nhm_pebs
attach_to_lem Pmu.intel_core w mutex tid memory k p r h done = rw done
attach_to_lem Pmu.intel_nhm w mutex tid memory k p r h done = rw done
attach_to_lem Pmu.amd64 w mutex tid memory k p r h done = absurd (true≢false (sym h))
attach_to_lem (Pmu.other n) w mutex tid memory k p r h done = absurd (true≢false (sym h))

-- The control registers are those of libpfm, with their values; register 0 is not emulated.
unfoldable pub AreControls : List (ℕ × ℕ) → List Pmc → Type 0
AreControls [] [] = Unit {0}
AreControls ((number, value) ∷ rs) (c ∷ cs) =
    (c.reg_num ≡ number) × (c.reg_value ≡ value) × (c.no_emul64 ≡ (number == 0)) × AreControls rs cs
AreControls _ _ = ⊥

-- A data register that counts nothing.
abbrev pub IsIdle : ℕ → Pmd → Type 0
IsIdle number d = (d.reg_num ≡ number) × (d.reg_value ≡ 0) × (d.ovfl_notify ≡ false)

unfoldable pub AreIdle : List ℕ → List Pmd → Type 0
AreIdle [] [] = Unit {0}
AreIdle (number ∷ ns) (d ∷ ds) = IsIdle number d × AreIdle ns ds
AreIdle _ _ = ⊥

-- The first data register starts, as after each overflow, at minus the period of 200001, and tells of its
-- overflow.
unfoldable pub AreCounters : List ℕ → List Pmd → Type 0
AreCounters [] [] = Unit {0}
AreCounters (number ∷ ns) (d ∷ ds) =
    (d.reg_num ≡ number)
    × (d.reg_value + 200001 ≡ 2 ^ 64)
    × (d.reg_long_reset + 200001 ≡ 2 ^ 64)
    × (d.reg_short_reset + 200001 ≡ 2 ^ 64)
    × (d.ovfl_notify ≡ true)
    × AreIdle ns ds
AreCounters _ _ = ⊥

set_pmcs-AreControls : (rs : List (ℕ × ℕ)) → AreControls rs (set_pmcs true rs)
unfolding AreControls set_pmcs
set_pmcs-AreControls [] = tt
set_pmcs-AreControls ((number, value) ∷ rs) = (refl, refl, refl, set_pmcs-AreControls rs)

blank-AreIdle : (ns : List ℕ) → AreIdle ns (map blank_pmd ns)
unfolding AreIdle
blank-AreIdle [] = tt
blank-AreIdle (number ∷ ns) = ((refl, refl, refl), blank-AreIdle ns)

set_pmds-AreCounters : (ns : List ℕ) → AreCounters ns (set_pmds ns)
unfolding AreCounters set_pmds
set_pmds-AreCounters [] = tt
set_pmds-AreCounters (number ∷ ns) = (refl, refl, refl, refl, refl, blank-AreIdle ns)

-- A thread with room in its lock set, which does not hold the mutex of the map, in an enabled profiler
-- on a PMU of Intel, where libpfm and the kernel give a context, a sampling buffer and registers. Then
-- the thread is attached, whether or not the registers can be written, the context be loaded and the
-- signal be set: the map has its descriptor, its lock set is as before, and the header of its sampling
-- buffer is stored. Its requests are: libpfm is initialised (twice on a Nehalem); the event, the context with
-- its buffer, and the registers are asked for; the control registers of libpfm are written, and the data
-- registers, the first of which counts down the period of 200001 and tells of its overflow; the context is
-- loaded for the thread, and the signal is directed to it; the descriptor is entered before the counter
-- starts.
pub context_attach-programs :
    (w : World) (mutex tid : ℕ) (memory : Option Memory) (k : Kernel) (p : Process) (l : Lockset)
    (fd : ℕ) (b : Mapped) (a : Assignment)
    → IsReady p tid l
    → (p.racez_enable == 0) ≡ false
    → l.overflow ≡ false
    → contains mutex (held l) ≡ false
    → is_pebs k.pmu ≡ true
    → IsAttachable k fd b a
    → (r : Attached) × (l' : Lockset) × (pmcs : List Pmc) × (pmds : List Pmd) × (context_attach w
          mutex tid memory k p
        ≡ ok r)
      × (find tid r.process.tid_fd ≡ some fd)
      × (r.process.tls tid ≡ record { key_created = true; lockset = some l' })
      × (held l' ≡ held l)
      × (r.header ≡ some b.address)
      × AreControls a.pmcs pmcs
      × AreCounters a.pmds pmds
      × (r.requests
          ≡ initializations k.pmu
            ++ Request.find_event
              ∷ Request.create_context (some k.sizes)
              ∷ Request.map_buffer fd k.sizes
              ∷ Request.dispatch_events true
              ∷ Request.write_pmcs fd pmcs
              ∷ Request.write_pmds fd pmds
              ∷ Request.load_context fd tid
              ∷ Request.set_async fd
              ∷ Request.set_owner fd tid
              ∷ Request.set_signal fd
              ∷ Request.enter fd
              ∷ Request.start fd
              ∷ [])
unfolding context_attach
context_attach-programs w mutex tid memory k p l fd b a r on room new pebs i =
    let p' : Process = record p { pmu = k.pmu } in
    let (q, l', done, entered, thread_locks, same) =
      register_thread_lem w mutex tid memory fd p' l
        (record {
          initialized = r.initialized;
          lockset_on = r.lockset_on;
          lock_found = r.lock_found;
          unlock_found = r.unlock_found;
          created = r.created;
          valid = r.valid;
        })
        on room new in
    let core = attach_core_lem w mutex tid memory k p' q fd b a i done in
    (
      record {
        requests = initializations k.pmu ++ pebs_requests k fd tid a;
        header = some b.address;
        process = q;
      },
      l',
      set_pmcs true a.pmcs,
      set_pmds a.pmds,
      ap
            (λ c. or_exit c >>= λ _.
              (attach_to k.pmu w mutex tid memory k p' >>= λ a.
              ok (record a { requests = Request.initialize ∷ a.requests })))
            i.initialized
          ∙ attach_to_lem k.pmu w mutex tid memory k p' _ pebs core,
      ap (find tid) entered ∙ find-put tid fd p.tid_fd,
      thread_locks,
      same,
      refl,
      set_pmcs-AreControls a.pmcs,
      set_pmds-AreCounters a.pmds,
      refl,
    )

five_exits :
    (a b c d e : Bool) (o : Outcome Attached)
    → (a && b && c && d && e) ≡ false
    → (or_exit a >>= λ _.
        or_exit b >>= λ _. or_exit c >>= λ _. or_exit d >>= λ _. or_exit e >>= λ _. o)
      ≡ fault exited
five_exits false b c d e o h = refl
five_exits true false c d e o h = refl
five_exits true true false d e o h = refl
five_exits true true true false e o h = refl
five_exits true true true true false o h = refl
five_exits true true true true true o h = absurd (true≢false h)

context_exits :
    (context : Option ℕ) (a b c d e : Bool) (o : ℕ → Outcome Attached)
    → (a && b && c && d && e) ≡ false
    → (given context >>= λ fd. or_exit a >>= λ _.
        or_exit b >>= λ _. or_exit c >>= λ _. or_exit d >>= λ _. or_exit e >>= λ _. o fd)
      ≡ fault exited
context_exits none a b c d e o h = refl
context_exits (some fd) a b c d e o h = five_exits a b c d e (o fd) h

attach_amd_lem :
    (w : World) (mutex tid : ℕ) (memory : Option Memory) (k : Kernel) (p : Process)
    → (k.pmcs_written && k.pmds_written && k.loaded && k.async_set && k.signal_set) ≡ false
    → attach_amd_ibs w mutex tid memory k p ≡ fault exited
unfolding attach_amd_ibs
attach_amd_lem w mutex tid memory k p failed =
    context_exits k.context k.pmcs_written k.pmds_written k.loaded k.async_set k.signal_set _ failed

either_exits :
    (b : Bool) (o : Outcome Attached) (f : Attached → Outcome Attached)
    → o ≡ fault exited
    → (or_exit b >>= λ _. o >>= f) ≡ fault exited
either_exits false o f h = refl
either_exits true o f h = ap (λ r. r >>= f) h

-- On a PMU of AMD a thread is attached only where its registers are written, its context is loaded and
-- its signal is set; else the program exits.
pub attach_amd_ibs-exits :
    (w : World) (mutex tid : ℕ) (memory : Option Memory) (k : Kernel) (p : Process)
    → k.pmu ≡ Pmu.amd64
    → (k.pmcs_written && k.pmds_written && k.loaded && k.async_set && k.signal_set) ≡ false
    → context_attach w mutex tid memory k p ≡ fault exited
unfolding context_attach
attach_amd_ibs-exits w mutex tid memory k p amd failed =
    let p' : Process = record p { pmu = k.pmu } in
    let exits : attach_to k.pmu w mutex tid memory k p' ≡ fault exited =
      ap (λ u. attach_to u w mutex tid memory k p') amd
      ∙ attach_amd_lem w mutex tid memory k p' failed in
    either_exits k.initialized (attach_to k.pmu w mutex tid memory k p')
      (λ a. ok (record a { requests = Request.initialize ∷ a.requests })) exits
