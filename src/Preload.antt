-- ===== src/Preload.antt =====
-- The preloaded library, racez_preload.c: the wrappers of the functions of the C library. Their real
-- counterparts are not modelled: what they return is an argument, and a call goes through a function
-- pointer, a number that is 0 for NULL. `pthread_once` runs `preload_init` to its end at the first call.
pub mod Allocation
pub mod Mutexes
pub mod Conditions
pub mod Keeps
mod Tests
use racez.Base.{
  ℕ, zero, suc, ◌+◌, ◌-◌, ◌%◌, ◌^◌, Bool, true, false, not, ◌&&◌, List, [], ◌∷◌, Option, none, some,
  map, ltb, ◌==◌, if◌then◌else◌, to_int, Outcome, ok, fault, out_of_bounds, null_pointer,
  assertion_failed, ◌>>=◌, ◌>>◌, assert,
}
use racez.Record.{Record, Op, RecordType}
use racez.Record.Views.{set_mem_alloc, set_signal, set_wait}
use racez.Flags.{Flags, Environment, read_flags}
use racez.Lockset.{Tls, add_one_mutex, remove_one_mutex}
use racez.AddressMap.{Map}
use racez.Buffer.{BufferData, write_record}
use racez.Sample.{Pmu, zero_op, zero_record}

-- The pointers to the real functions.
pub record Pointers : Type 0 where
  pub mutex_lock : ℕ
  pub mutex_trylock : ℕ
  pub mutex_unlock : ℕ
  pub create : ℕ
  pub malloc : ℕ
  pub free : ℕ
  pub cond_signal : ℕ
  pub cond_wait : ℕ

-- The environment, and what `dlsym` finds.
pub record World : Type 0 where
  pub environment : Environment
  pub symbols : Pointers

-- What the process does at SIGIO.
pub data Disposition : Type 0 where
  default_action : Disposition
  ignored : Disposition
  handler : Disposition

-- The global variables of the library and of the profiler, the action for SIGIO, and the
-- storage of every thread.
pub record Process : Type 0 where
  pub initialized : Bool
  pub flags : Flags
  pub real : Pointers
  pub racez_enable : ℕ
  pub tls : ℕ → Tls
  pub buffer : Option BufferData
  pub pmu : Pmu
  pub sig_enable : Bool
  pub disposition : Disposition
  pub tid_fd : Map ℕ
  pub num_stat : ℕ

unfoldable pub load_symbols : Flags → Pointers → Pointers → Pointers
load_symbols f symbols real = record {
  mutex_lock = if f.racez_lockset == 0 then real.mutex_lock else symbols.mutex_lock;
  mutex_trylock = if f.racez_lockset == 0 then real.mutex_trylock else symbols.mutex_trylock;
  mutex_unlock = if f.racez_lockset == 0 then real.mutex_unlock else symbols.mutex_unlock;
  create = symbols.create;
  malloc = if f.racez_memory_allocator == 0 then real.malloc else symbols.malloc;
  free = if f.racez_memory_allocator == 0 then real.free else symbols.free;
  cond_signal = if f.racez_signal_wait == 0 then real.cond_signal else symbols.cond_signal;
  cond_wait = if f.racez_signal_wait == 0 then real.cond_wait else symbols.cond_wait;
}

unfoldable pub preload_init : World → Process → Process
preload_init w p = record p {
  initialized = true;
  flags = read_flags w.environment;
  real = load_symbols (read_flags w.environment) w.symbols p.real;
}

-- `pthread_once(&initializer, preload_init)`
unfoldable pub once : World → Process → Process
once w p = if p.initialized then p else preload_init w p

-- `if(pointer == NULL) pointer = dlsym(...)`
abbrev pub resolve : ℕ → ℕ → ℕ
resolve pointer symbol = if pointer == 0 then symbol else pointer

-- A call through a function pointer.
abbrev pub call : ℕ → Outcome (Unit {0})
call pointer = if pointer == 0 then fault null_pointer else ok tt

-- `WriteRecord`, if the flag is on and the profiler is enabled.
unfoldable pub log_if : ℕ → Record → Process → Outcome Process
log_if flag r p = if flag == 0 then ok p else if p.racez_enable == 0 then ok p else (do
  buffer ← write_record p.flags.racez_write_record r p.buffer
  ok (record p { buffer = buffer }))

unfoldable pub allocation_record : ℕ → ℕ → ℕ → ℕ → Record
allocation_record tid start size is_alloc = record zero_record {
  thread_id = tid;
  kind = RecordType.memory_alloc;
  op = set_mem_alloc start size is_alloc zero_op;
}

-- `result` is what the real function returned.
unfoldable pub malloc : World → ℕ → ℕ → ℕ → Process → Outcome (ℕ × Process)
malloc w tid size result p₀ = do
  let p₁ = once w p₀
  let p₂ : Process = record p₁ {
    real = record (p₁.real) { malloc = resolve p₁.real.malloc w.symbols.malloc };
  }
  call p₂.real.malloc
  p₃ ← log_if p₂.flags.racez_memory_allocator (allocation_record tid result (to_int size) 1) p₂
  ok (result, p₃)

unfoldable pub free : World → ℕ → ℕ → Process → Outcome Process
free w tid pointer p₀ = do
  let p₁ = once w p₀
  let p₂ : Process = record p₁ {
    real = record (p₁.real) { free = resolve p₁.real.free w.symbols.free };
  }
  call p₂.real.free
  log_if p₂.flags.racez_memory_allocator (allocation_record tid pointer 0 0) p₂

unfoldable pub racez_log_memory_allocation : ℕ → ℕ → ℕ → ℕ → Process → Outcome Process
racez_log_memory_allocation tid start size is_alloc p =
    log_if p.flags.racez_memory_allocator (allocation_record tid start size is_alloc) p

-- The memory that a thread gets for its lock set: the address, and what its slots hold.
pub record Memory : Type 0 where
  pub address : ℕ
  pub slots : List ℕ

abbrev pub address_of : Option Memory → ℕ
address_of none = 0
address_of (some m) = m.address

abbrev pub slots_of : Option Memory → Option (List ℕ)
slots_of none = none
slots_of (some m) = some m.slots

abbrev pub set_tls : ℕ → Tls → (ℕ → Tls) → ℕ → Tls
set_tls tid t tls other = if tid == other then t else tls other

abbrev pub has_lockset : Tls → Bool
has_lockset t = elim t.lockset [ none ↦ false | some l ↦ true ]

-- A method of racez_mutex.cc: a thread without a lock set calls the wrapper of `malloc` first, for the
-- 88 bytes of a `LOCKSET`.
unfoldable pub on_lockset :
    (Option (List ℕ) → ℕ → Tls → Outcome Tls)
    → World
    → ℕ
    → Option Memory
    → ℕ
    → Process
    → Outcome Process
on_lockset method w tid memory mutex p₀ = do
  (_, p₁) ← if has_lockset (p₀.tls tid) then ok (0, p₀) else malloc w tid 88 (address_of memory) p₀
  t ← method (slots_of memory) mutex (p₁.tls tid)
  ok (record p₁ { tls = set_tls tid t p₁.tls })

unfoldable pub pthread_mutex_lock :
    World → ℕ → Option Memory → ℕ → ℕ → Process → Outcome (ℕ × Process)
pthread_mutex_lock w tid memory mutex result p₀ = do
  let p₁ = once w p₀
  p₂ ←
      if p₁.flags.racez_lockset == 0
      then ok (record p₁ {
        real = record (p₁.real) { mutex_lock = resolve p₁.real.mutex_lock w.symbols.mutex_lock };
      })
      else on_lockset add_one_mutex w tid memory mutex p₁
  assert (not (p₂.real.mutex_lock == 0))
  call p₂.real.mutex_lock
  ok (result, p₂)

unfoldable pub pthread_mutex_unlock :
    World → ℕ → Option Memory → ℕ → ℕ → Process → Outcome (ℕ × Process)
pthread_mutex_unlock w tid memory mutex result p₀ = do
  let p₁ = once w p₀
  let p₂ : Process = record p₁ {
    real = record (p₁.real) { mutex_unlock = resolve p₁.real.mutex_unlock w.symbols.mutex_unlock };
  }
  call p₂.real.mutex_unlock
  p₃ ←
      if not (p₂.flags.racez_lockset == 0) && not (p₂.racez_enable == 0)
      then on_lockset remove_one_mutex w tid memory mutex p₂
      else ok p₂
  ok (result, p₃)

unfoldable pub wait_record : ℕ → ℕ → ℕ → Record
wait_record tid cond mutex = record zero_record {
  thread_id = tid;
  kind = RecordType.sync_wait;
  op = set_wait cond mutex zero_op;
}

unfoldable pub signal_record : ℕ → ℕ → Record
signal_record tid cond = record zero_record {
  thread_id = tid;
  kind = RecordType.sync_signal;
  op = set_signal cond zero_op;
}

unfoldable pub pthread_cond_wait : World → ℕ → ℕ → ℕ → ℕ → Process → Outcome (ℕ × Process)
pthread_cond_wait w tid cond mutex result p₀ = do
  let p₁ = once w p₀
  let p₂ : Process = record p₁ {
    real = record (p₁.real) { cond_wait = resolve p₁.real.cond_wait w.symbols.cond_wait };
  }
  call p₂.real.cond_wait
  assert (result == 0)
  p₃ ← log_if p₂.flags.racez_signal_wait (wait_record tid cond mutex) p₂
  ok (result, p₃)

unfoldable pub pthread_cond_signal : World → ℕ → ℕ → ℕ → Process → Outcome (ℕ × Process)
pthread_cond_signal w tid cond result p₀ = do
  let p₁ = once w p₀
  let p₂ : Process = record p₁ {
    real = record (p₁.real) { cond_signal = resolve p₁.real.cond_signal w.symbols.cond_signal };
  }
  call p₂.real.cond_signal
  assert (result == 0)
  p₃ ← log_if p₂.flags.racez_signal_wait (signal_record tid cond) p₂
  ok (result, p₃)

-- A failed assertion if the thread holds a lock.
unfoldable pub debug_mutex : ℕ → Process → Outcome (Unit {0})
debug_mutex tid p = elim (p.tls tid).lockset [
  | none ↦ ok tt
  | some l ↦ if ltb 0 l.n then fault assertion_failed else ok tt
]
