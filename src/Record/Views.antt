-- ===== src/Record/Views.antt =====
-- The members of the union `op_` of `struct Record` besides `memory_access_` (racez_bufferdata.h).
use racez.Base.{ℕ, ◌+◌, ◌*◌, ◌/◌, ◌%◌, ◌^◌, ◌<◌, ◌≡◌, arith}
use racez.Record.{Op}

-- `mem_alloc_op_`: a pointer, and two `int`s that share the eight bytes of `pip_`.
unfoldable pub start_address : Op → ℕ
start_address o = o.memory_address

unfoldable pub size : Op → ℕ
size o = o.pip % 2 ^ 32

unfoldable pub is_alloc : Op → ℕ
is_alloc o = o.pip / 2 ^ 32 % 2 ^ 32

unfoldable pub set_mem_alloc : ℕ → ℕ → ℕ → Op → Op
set_mem_alloc start bytes alloc o = record o {
  memory_address = start;
  pip = bytes + alloc * 2 ^ 32;
}

-- `signal_op_`, and `wait_op_` with its two addresses.
unfoldable pub set_signal : ℕ → Op → Op
set_signal cond o = record o { memory_address = cond }

unfoldable pub set_wait : ℕ → ℕ → Op → Op
set_wait cond mutex o = record o { memory_address = cond; pip = mutex }

-- What is written through `mem_alloc_op_` is read back through it.
pub set_mem_alloc_read :
    (start bytes alloc : ℕ) (o : Op)
    → bytes < 2 ^ 32
    → alloc < 2 ^ 32
    → (start_address (set_mem_alloc start bytes alloc o) ≡ start)
      × (size (set_mem_alloc start bytes alloc o) ≡ bytes)
      × (is_alloc (set_mem_alloc start bytes alloc o) ≡ alloc)
unfolding start_address size is_alloc set_mem_alloc
set_mem_alloc_read start bytes alloc o h k = omega arith

pub size-lt : (o : Op) → size o < 2 ^ 32
unfolding size
size-lt o = omega arith

pub is_alloc-lt : (o : Op) → is_alloc o < 2 ^ 32
unfolding is_alloc
is_alloc-lt o = omega arith
