-- ===== src/Profiler/Stops.antt =====
-- The stop of the profiler and a start behind it (racez_pmuprofiler.cc, racez_preload.c).
use racez.Base.{
  ◌+◌, get_elem?, ℕ, suc, ◌*◌, ◌<◌, ◌≡◌, refl, ap, ◌∙◌, Bool, true, false, not, ◌&&◌, ◌||◌, to_int,
  List, [], ◌∷◌, ◌++◌, Option, none, some, arith, ◌==◌, if◌then◌else◌, length, Outcome, ok, fault,
  assertion_failed, ◌>>◌, assert,
}
use racez.Record.{Record}
use racez.Lockset.{Lockset, held, add_locked}
use racez.Lockset.Contents.{IsValid, add_locked_lem}
use racez.AddressMap.{Map}
use racez.Buffer.{BufferData, buffer_size, init_buffer}
use racez.Buffer.Log.{slice, stop_buffer_of, length-slice, get_elem?-slice}
use racez.Preload.{World, Process, Memory, malloc, allocation_record}
use racez.Preload.Mutexes.{
  IsReady, with_locks_of, thread, lock_lem, unlock_early, IsReady-with, set_tls_self, once_done,
}
use racez.Preload.Allocation.{log_if_off}
use racez.Profiler.{
  Start, is_supported, no_buffer, start_buffer, pmu_profiler_start, racez_start, stop_threads,
  pmu_profiler_stop, racez_stop, disable_signal_handler,
}

abbrev pub all_attached : Map ℕ → Bool
all_attached [] = true
all_attached ((tid, fd) ∷ m) = not (fd == 0) && all_attached m

pub stop_threads_lem : (m : Map ℕ) → all_attached m ≡ true → stop_threads m ≡ ok tt
unfolding stop_threads
stop_threads_lem [] h = refl
stop_threads_lem ((tid, fd) ∷ m) h =
    passed (not (fd == 0)) (all_attached m) (stop_threads m) h (stop_threads_lem m)
  where
    passed :
        (a b : Bool) (o : Outcome (Unit {0}))
        → (a && b) ≡ true
        → (b ≡ true → o ≡ ok tt)
        → (assert a >> o) ≡ ok tt
    passed true b o h k = k h
    passed false b o h k = absurd (ground arith)

-- The process behind the stop.
abbrev stopped : Bool → Process → Process
stopped disabled p = record (disable_signal_handler disabled p) { buffer = none }

stop_lem :
    (w : World) (mutex tid : ℕ) (memory : Option Memory) (disabled : Bool) (p : Process)
    (l l' : Lockset) (b : BufferData)
    → IsReady p tid l
    → IsValid l'
    → add_locked mutex l ≡ ok l'
    → p.racez_enable ≡ 0
    → all_attached p.tid_fd ≡ true
    → p.buffer ≡ some b
    → b.global < buffer_size
    → pmu_profiler_stop w mutex tid memory disabled p
      ≡ ok (slice (suc b.global) 0 b.cells, stopped disabled (with_locks_of tid l' p))
unfolding pmu_profiler_stop disable_signal_handler
stop_lem w mutex tid memory disabled p l l' b r v added off attached buf room =
    let p₁ : Process = with_locks_of tid l' p in
    let is_off : (p₁.racez_enable == 0) ≡ true = ground (arith, off) in
    rw (
      lock_lem w tid memory mutex 0 p l l' r added,
      stop_threads_lem p.tid_fd attached,
      unlock_early w tid memory mutex 0 p₁ l' (IsReady-with tid p l l' r v) is_off,
      buf,
      stop_buffer_of b room,
    )

first_slice :
    (n i : ℕ) (cells : ℕ → Record) → i < n → get_elem? (slice n 0 cells) i ≡ some (cells i)
first_slice n i cells h =
    get_elem?-slice n 0 i cells h ∙ ap (λ k. some (cells k)) {x = 0 + i} {y = i} (omega arith)

racez_stop_lem :
    (w : World) (mutex tid : ℕ) (memory : Option Memory) (disabled : Bool) (p : Process)
    (l l' : Lockset) (b : BufferData)
    → IsReady p tid l
    → add_locked mutex l ≡ ok l'
    → IsValid l'
    → p.racez_enable ≡ 1
    → all_attached p.tid_fd ≡ true
    → p.buffer ≡ some b
    → b.global < buffer_size
    → racez_stop w mutex tid memory disabled p
      ≡ ok (
        slice (suc b.global) 0 b.cells,
        stopped disabled (with_locks_of tid l' (record p { racez_enable = 0 })),
      )
unfolding racez_stop
racez_stop_lem w mutex tid memory disabled p l l' b r added v on attached buf room =
    let p₀ : Process = record p { racez_enable = 0 } in
    let r₀ : IsReady p₀ tid l = record {
      initialized = r.initialized;
      lockset_on = r.lockset_on;
      lock_found = r.lock_found;
      unlock_found = r.unlock_found;
      created = r.created;
      valid = r.valid;
    } in
    let is_on : (p.racez_enable == 1) ≡ true = ground (arith, on) in
    rw (is_on, stop_lem w mutex tid memory disabled p₀ l l' b r₀ v added refl attached buf room)
      refl

-- `racez_stop` in an enabled profiler, whose threads all have a descriptor and whose log is not
-- overrun, disables it and gives up the log: the entries from the first up to the global pointer. It leaves the
-- mutex of the descriptors among the held locks of the calling thread: it is locked when the profiler
-- is disabled already, so that its unlock is not noted.
pub racez_stop-keeps_mutex :
    (w : World) (mutex tid : ℕ) (memory : Option Memory) (disabled : Bool) (p : Process)
    (l : Lockset) (b : BufferData)
    → IsReady p tid l
    → l.overflow ≡ false
    → p.racez_enable ≡ 1
    → all_attached p.tid_fd ≡ true
    → p.buffer ≡ some b
    → b.global < buffer_size
    → (records : List Record) × (p' : Process) × (l' : Lockset) × (racez_stop w mutex tid memory
          disabled p
        ≡ ok (records, p'))
      × (length records ≡ suc b.global)
      × ((i : ℕ) → i < suc b.global → get_elem? records i ≡ some (b.cells i))
      × (p'.racez_enable ≡ 0)
      × (p'.buffer ≡ none)
      × (p'.tls tid ≡ record { key_created = true; lockset = some l' })
      × (held l' ≡ held l ++ mutex ∷ [])
unfolding disable_signal_handler
racez_stop-keeps_mutex w mutex tid memory disabled p l b r free on attached buf room =
    let (l', added, v, same) = add_locked_lem mutex l r.valid in
    (
      slice (suc b.global) 0 b.cells,
      stopped disabled (with_locks_of tid l' (record p { racez_enable = 0 })),
      l',
      racez_stop_lem w mutex tid memory disabled p l l' b r added v on attached buf room,
      length-slice (suc b.global) 0 b.cells,
      λ i h. first_slice (suc b.global) i b.cells h,
      refl,
      refl,
      set_tls_self tid (thread l') p.tls,
      same ∙ ap (λ full. if full then held l else held l ++ mutex ∷ []) free,
    )

either_off : (a b : Bool) → b ≡ true → (a || b) ≡ true
either_off true b h = refl
either_off false b h = h

malloc_lem :
    (w : World) (tid bytes result : ℕ) (p : Process)
    → p.initialized ≡ true
    → (p.real.malloc == 0) ≡ false
    → p.racez_enable ≡ 0
    → malloc w tid bytes result p ≡ ok (result, p)
unfolding malloc
malloc_lem w tid bytes result p i found off =
    let is_off : (p.racez_enable == 0) ≡ true = ground (arith, off) in
    let quiet =
      log_if_off p.flags.racez_memory_allocator (allocation_record tid result (to_int bytes) 1) p
        (either_off (p.flags.racez_memory_allocator == 0) (p.racez_enable == 0) is_off) in
    rw (once_done w p i, found, found, quiet)

assert-no_buffer : (o : Option BufferData) → o ≡ none → assert (no_buffer o) ≡ ok tt
assert-no_buffer o h = ap (λ o. assert (no_buffer o)) h

assert_refused : (b : Bool) → b ≡ true → assert (not b) ≡ fault assertion_failed
assert_refused b h = ap (λ b. assert (not b)) h

init_buffer_lem :
    (h a : Bool) (memory : ℕ → Record) (fd : Option ℕ) (n : ℕ)
    → h ≡ false
    → a ≡ false
    → fd ≡ some n
    → init_buffer (not h) (if a then none else some memory) fd none
      ≡ ok (true, some (record { cells = memory; global = 0; fd = n }))
unfolding init_buffer
init_buffer_lem h a memory fd n e f g = rw (e, f, g)

start_buffer_lem :
    (w : World) (tid : ℕ) (s : Start) (p : Process) (fd : ℕ)
    → p.initialized ≡ true
    → (p.real.malloc == 0) ≡ false
    → p.racez_enable ≡ 0
    → p.buffer ≡ none
    → (s.header == 0) ≡ false
    → (s.area == 0) ≡ false
    → s.fd ≡ some fd
    → start_buffer w tid s p
      ≡ ok (record p { buffer = some (record { cells = s.memory; global = 0; fd = fd }) })
unfolding start_buffer
start_buffer_lem w tid s p fd i found off buf h a f = rw (
  assert-no_buffer p.buffer buf,
  malloc_lem w tid 24 s.header p i found off,
  init_buffer_lem (s.header == 0) (s.area == 0) s.memory s.fd fd h a f,
  h,
  malloc_lem w tid (buffer_size * 368) s.area p i found off,
)

refused_start :
    (w : World) (tid : ℕ) (s : Start) (p : Process) (fd : ℕ)
    → p.initialized ≡ true
    → (p.real.malloc == 0) ≡ false
    → p.racez_enable ≡ 0
    → p.buffer ≡ none
    → p.sig_enable ≡ true
    → s.pfm_ok ≡ true
    → is_supported s.pmu ≡ true
    → (s.header == 0) ≡ false
    → (s.area == 0) ≡ false
    → s.fd ≡ some fd
    → racez_start w tid s p ≡ fault assertion_failed
unfolding racez_start pmu_profiler_start
refused_start w tid s p fd i found off buf sig pfm sup h a f =
    let p₁ : Process = record p { pmu = s.pmu } in
    rw (
      once_done w p i,
      ap not pfm,
      sup,
      start_buffer_lem w tid s p₁ fd i found off buf h a f,
      assert_refused p.sig_enable sig,
    )

-- The profiler cannot be started again: a `racez_stop` as above, of a profiler that was started with its
-- signal handler, is followed by a `racez_start` that fails at an assertion, though it gets all that it
-- asks for.
pub restart_fails :
    (w : World) (mutex tid : ℕ) (memory : Option Memory) (disabled : Bool) (p : Process)
    (l : Lockset) (b : BufferData) (s : Start) (fd : ℕ)
    → IsReady p tid l
    → l.overflow ≡ false
    → p.racez_enable ≡ 1
    → all_attached p.tid_fd ≡ true
    → p.buffer ≡ some b
    → b.global < buffer_size
    → p.sig_enable ≡ true
    → (p.real.malloc == 0) ≡ false
    → s.pfm_ok ≡ true
    → is_supported s.pmu ≡ true
    → (s.header == 0) ≡ false
    → (s.area == 0) ≡ false
    → s.fd ≡ some fd
    → (records : List Record) × (p' : Process) × (racez_stop w mutex tid memory disabled p
        ≡ ok (records, p'))
      × (racez_start w tid s p' ≡ fault assertion_failed)
unfolding disable_signal_handler
restart_fails w mutex tid memory disabled p l b s fd r free on attached buf room sig found pfm sup h
      a f =
    let (l', added, v, _) = add_locked_lem mutex l r.valid in
    let p' : Process = stopped disabled (with_locks_of tid l' (record p { racez_enable = 0 })) in
    (
      slice (suc b.global) 0 b.cells,
      p',
      racez_stop_lem w mutex tid memory disabled p l l' b r added v on attached buf room,
      refused_start w tid s p' fd r.initialized found refl refl sig pfm sup h a f,
    )
