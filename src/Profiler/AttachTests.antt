-- ===== src/Profiler/AttachTests.antt =====
-- Instances of the theorems on the attach of threads (racez_pmuprofiler.cc).
use racez.Base.{
  ◌≡◌, refl, true, false, [], ◌∷◌, none, some, ok, fault, contains, exited, ℕ, ◌^◌, List,
}
use racez.Lockset.{Lockset, held}
use racez.Sample.{Pmu}
use racez.Profiler.Attach.Laws.{has_key}
use racez.Preload.{malloc, once, log_if, Process}
use racez.Preload.Mutexes.{IsReady}
use racez.Profiler.{stop_threads}
use racez.Profiler.Attach.{context_attach, racez_thread_start_func, perthread_attach}
use racez.Profiler.Kernel.{Pmc, Pmd, Attached, Kernel, Mapped, Assignment, Request, check_buffer}
use racez.Profiler.Attach.Registers.{
  IsAttachable, AreControls, AreCounters, context_attach-programs, attach_amd_ibs-exits,
}
use racez.Profiler.Attach.Threads.{Step, Reach, Reach-stops}
use racez.AddressMap.{find}
use racez.Profiler.Tests.{world, one_lock, one_lock-IsValid, process}

-- A thread without a descriptor, and a PMU of Intel whose context cannot be loaded.
abbrev unknown : Process
unknown = record process { tid_fd = [] }

unknown-IsReady : IsReady unknown 7 one_lock
unknown-IsReady = record {
  initialized = refl;
  lockset_on = refl;
  lock_found = refl;
  unlock_found = refl;
  created = refl;
  valid = one_lock-IsValid;
}

abbrev mapped : Mapped
mapped = record { address = 300; version = 2 ^ 16; entry_size = 144; pebs_size = 144 }

abbrev assignment : Assignment
assignment = record { pmcs = (0, 77) ∷ []; pmds = 2 ∷ [] }

abbrev kernel : Kernel
kernel = record {
  initialized = true;
  pmu = Pmu.intel_nhm;
  event_found = true;
  sizes = 200;
  context = some 4;
  second_context = 0;
  buffer = some mapped;
  assigned = some assignment;
  pmcs_written = true;
  pmds_written = true;
  loaded = false;
  async_set = true;
  signal_set = true;
  ibsopctl = 0;
}

kernel-IsAttachable : IsAttachable kernel 4 mapped assignment
unfolding check_buffer
kernel-IsAttachable = record {
  initialized = refl;
  event_found = refl;
  context = refl;
  buffer = refl;
  checked = refl;
  assigned = refl;
  fits = refl;
}

context_attach-programs_example :
    (r : Attached) × (l' : Lockset) × (pmcs : List Pmc) × (pmds : List Pmd) × (context_attach world
        90 7 none kernel unknown
      ≡ ok r)
    × (find 7 r.process.tid_fd ≡ some 4)
    × (r.process.tls 7 ≡ record { key_created = true; lockset = some l' })
    × (held l' ≡ 40 ∷ [])
    × (r.header ≡ some 300)
    × AreControls assignment.pmcs pmcs
    × AreCounters assignment.pmds pmds
    × (r.requests
        ≡ Request.initialize
          ∷ Request.initialize
          ∷ Request.find_event
          ∷ Request.create_context (some kernel.sizes)
          ∷ Request.map_buffer 4 kernel.sizes
          ∷ Request.dispatch_events true
          ∷ Request.write_pmcs 4 pmcs
          ∷ Request.write_pmds 4 pmds
          ∷ Request.load_context 4 7
          ∷ Request.set_async 4
          ∷ Request.set_owner 4 7
          ∷ Request.set_signal 4
          ∷ Request.enter 4
          ∷ Request.start 4
          ∷ [])
context_attach-programs_example =
    context_attach-programs world 90 7 none kernel unknown one_lock 4 mapped assignment
      unknown-IsReady refl refl refl refl kernel-IsAttachable

attach_amd_ibs-exits_example :
    context_attach world 90 7 none (record kernel { pmu = Pmu.amd64 }) unknown ≡ fault exited
attach_amd_ibs-exits_example =
    attach_amd_ibs-exits world 90 7 none (record kernel { pmu = Pmu.amd64 }) unknown refl refl

-- The thread allocates, and then it is attached.
allocated : malloc world 7 16 600 unknown ≡ ok (600, unknown)
unfolding malloc once log_if
allocated = refl

begun : (a : Attached) × (racez_thread_start_func world 90 7 none kernel unknown ≡ ok a)
unfolding racez_thread_start_func perthread_attach
begun =
    let r =
      context_attach-programs world 90 7 none kernel unknown one_lock 4 mapped assignment
        unknown-IsReady refl refl refl refl kernel-IsAttachable in
    (r.0, r.4)

begun-Reach : Reach world unknown (record { process = begun.0.process; attached = 7 ∷ [] })
begun-Reach =
    Reach.next (Reach.next (Reach.first refl) (Step.allocate 7 16 600 allocated))
      (Step.begin 90 7 4 none kernel refl refl refl begun.1)

Reach-stops_example :
    (stop_threads begun.0.process.tid_fd ≡ ok tt)
    × ((tid : ℕ) → contains tid (7 ∷ []) ≡ true → has_key tid begun.0.process.tid_fd ≡ true)
Reach-stops_example =
    Reach-stops world unknown (record { process = begun.0.process; attached = 7 ∷ [] }) begun-Reach
