-- ===== src/Profiler/Attach.antt =====
-- How a thread is attached to its counter (racez_pmuprofiler.cc). What libpfm and the kernel give is an
-- argument; what they are asked is a list of requests, in their order. What the functions return is not
-- used.
pub mod Threads
pub mod Laws
pub mod Registers
use racez.Base.{
  ℕ, zero, suc, ◌*◌, ◌-◌, ◌/◌, ◌%◌, ◌^◌, Bool, true, false, not, ◌&&◌, List, [], ◌∷◌, ◌++◌, Option,
  none, some, map, ltb, leb, ◌==◌, if◌then◌else◌, length, Outcome, ok, fault, exited, out_of_bounds,
  assertion_failed, divided_by_zero, ◌>>=◌, ◌>>◌,
}
use racez.AddressMap.{put}
use racez.Sample.{Pmu}
use racez.Preload.{World, Process, Memory, pthread_mutex_lock, pthread_mutex_unlock}
use racez.Profiler.Kernel.{
  Pmc, Pmd, Request, Mapped, Assignment, Kernel, Attached, or_exit, given, no_period, blank_pmd,
  fit_arrays, set_pmcs, set_pmds, check_buffer,
}

-- `tid_fd_map[tid] = fd` under its mutex.
unfoldable pub register_thread : World → ℕ → ℕ → Option Memory → ℕ → Process → Outcome Process
register_thread w mutex tid memory fd p = do
  (_, p₁) ← pthread_mutex_lock w tid memory mutex 0 p
  (_, p₂) ← pthread_mutex_unlock w tid memory mutex 0 (record p₁ { tid_fd = put tid fd p₁.tid_fd })
  ok p₂

-- SIGIO for the thread at an overflow.
abbrev pub notify_thread : ℕ → ℕ → List Request
notify_thread fd tid = Request.set_async fd ∷ Request.set_owner fd tid ∷ Request.set_signal fd ∷ []

-- The requests between the mapped buffer and the start.
abbrev pub program_requests : ℕ → ℕ → List Pmc → List Pmd → List Request
program_requests fd tid pmcs pmds =
    Request.write_pmcs fd pmcs
    ∷ Request.write_pmds fd pmds
    ∷ Request.load_context fd tid
    ∷ notify_thread fd tid

-- The context for Core: a register that cannot be written, a context that cannot be loaded and a signal
-- that cannot be set are printed alone.
unfoldable pub attach_core_pebs :
    World → ℕ → ℕ → Option Memory → Kernel → Process → Outcome Attached
attach_core_pebs w mutex tid memory k p = do
  or_exit k.event_found
  fd ← given k.context
  b ← given k.buffer
  check_buffer b
  a ← given k.assigned
  fit_arrays a
  p' ← register_thread w mutex tid memory fd p
  ok (record {
    requests =
        (Request.find_event
          ∷ Request.create_context (some k.sizes)
          ∷ Request.map_buffer fd k.sizes
          ∷ Request.dispatch_events true
          ∷ [])
        ++ (program_requests fd tid (set_pmcs true a.pmcs) (set_pmds a.pmds)
            ++ Request.enter fd ∷ Request.start fd ∷ []);
    header = some b.address;
    process = p';
  })

-- The context for Nehalem, which sets up libpfm again: whether that works is printed alone.
unfoldable pub attach_nhm_pebs : World → ℕ → ℕ → Option Memory → Kernel → Process → Outcome Attached
attach_nhm_pebs w mutex tid memory k p = do
  a ← attach_core_pebs w mutex tid memory k p
  ok (record a { requests = Request.initialize ∷ a.requests })

-- The context for AMD, where only the owner of the signal need not be set.
unfoldable pub attach_amd_ibs : World → ℕ → ℕ → Option Memory → Kernel → Process → Outcome Attached
attach_amd_ibs w mutex tid memory k p = do
  fd ← given k.context
  or_exit k.pmcs_written
  or_exit k.pmds_written
  or_exit k.loaded
  or_exit k.async_set
  or_exit k.signal_set
  p' ← register_thread w mutex tid memory fd p
  ok (record {
    requests =
        Request.create_context none
        ∷ (program_requests fd tid
              (record { reg_num = 5; reg_value = k.ibsopctl; no_emul64 = false } ∷ [])
              (record (blank_pmd 7) { reg_smpl_pmds = (2 ^ 7 - 1) * 2 ^ 7; ovfl_notify = true }
                ∷ [])
            ++ Request.enter fd ∷ Request.start fd ∷ []);
    header = none;
    process = p';
  })

-- The context without PEBS, which no function calls: the first context is left open, whether there is
-- a second is not tested, and the counter starts before the entry in the map.
unfoldable pub attach_experimental :
    World → ℕ → ℕ → Option Memory → Kernel → Process → Outcome Attached
attach_experimental w mutex tid memory k p = do
  first ← given k.context
  a ← given k.assigned
  fit_arrays a
  or_exit k.pmcs_written
  or_exit k.pmds_written
  or_exit k.loaded
  or_exit k.async_set
  or_exit k.signal_set
  let fd = k.second_context
  p' ← register_thread w mutex tid memory fd p
  ok (record {
    requests =
        (Request.find_event
          ∷ Request.create_context none
          ∷ Request.dispatch_events false
          ∷ Request.create_context none
          ∷ [])
        ++ (program_requests fd tid (set_pmcs false a.pmcs) (set_pmds a.pmds)
            ++ Request.start fd ∷ Request.enter fd ∷ []);
    header = none;
    process = p';
  })

abbrev pub attach_to : Pmu → World → ℕ → ℕ → Option Memory → Kernel → Process → Outcome Attached
attach_to Pmu.intel_core w mutex tid memory k p = attach_core_pebs w mutex tid memory k p
attach_to Pmu.intel_nhm w mutex tid memory k p = attach_nhm_pebs w mutex tid memory k p
attach_to Pmu.amd64 w mutex tid memory k p = attach_amd_ibs w mutex tid memory k p
attach_to _ w mutex tid memory k p = fault assertion_failed

unfoldable pub context_attach : World → ℕ → ℕ → Option Memory → Kernel → Process → Outcome Attached
context_attach w mutex tid memory k p = do
  or_exit k.initialized
  a ← attach_to k.pmu w mutex tid memory k (record p { pmu = k.pmu })
  ok (record a { requests = Request.initialize ∷ a.requests })

-- The thread that is not attached.
abbrev pub unattached : Process → Attached
unattached p = record { requests = []; header = none; process = p }

unfoldable pub perthread_attach :
    World → ℕ → ℕ → Option Memory → Kernel → Process → Outcome Attached
perthread_attach w mutex tid memory k p =
    if p.racez_enable == 0 then ok (unattached p) else context_attach w mutex tid memory k p

-- The head of `racez_thread_start_func`, before the thread's own function.
unfoldable pub racez_thread_start_func :
    World → ℕ → ℕ → Option Memory → Kernel → Process → Outcome Attached
racez_thread_start_func w mutex tid memory k p =
    if p.racez_enable == 0 then ok (unattached p) else perthread_attach w mutex tid memory k p
