-- ===== src/Detect/Blocks.antt =====
-- What a log says to the detector with the memory reuse filter (tools/detect.cc): which blocks were
-- released, and the accesses to an address since the last release of a block with it.
pub mod Heap
pub mod Release
pub mod Histories
pub mod Step
pub mod Run
pub mod Warnings
pub mod Tests
use racez.Base.{
  ℕ, suc, ◌+◌, ◌≡◌, Bool, true, false, not, ◌&&◌, List, [], ◌∷◌, arith, ltb, ◌==◌, if◌then◌else◌,
  ◌^◌,
}
use racez.Record.{Record, RecordType}
use racez.Record.Views.{start_address, size, is_alloc}
use racez.Detect.Entries.{in_range}
use racez.Detect.Histories.{accesses}
use racez.Eraser.Due.{was_due}

abbrev pub is_event : RecordType → Bool
is_event k = elim k [ RecordType.memory_alloc ↦ true | _ ↦ false ]

abbrev pub allocates : ℕ → Record → Bool
allocates a r = is_event r.kind && (not (is_alloc r.op == 0) && start_address r.op == a)

-- The size of the last allocation at the address, or 0. Logs have their latest record first.
abbrev pub known_size : ℕ → List Record → ℕ
known_size a [] = 0
known_size a (r ∷ log) = if allocates a r then size r.op else known_size a log

-- A release without a size is of the bytes that were allocated there.
abbrev pub freed_bytes : Record → List Record → ℕ
freed_bytes r log = if size r.op == 0 then known_size (start_address r.op) log else size r.op

abbrev pub is_release : Record → Bool
is_release r = is_event r.kind && is_alloc r.op == 0

-- The record releases a block with the address.
abbrev pub releases : ℕ → Record → List Record → Bool
releases a r log =
    is_release r
    && (not (start_address r.op == 0)
        && in_range (start_address r.op) (start_address r.op + freed_bytes r log) a)

-- The accesses to an address since the last release of a block with it.
abbrev pub since : ℕ → List Record → List Record
since a [] = []
since a (r ∷ log) =
    if releases a r log then [] else if accesses a r then r ∷ since a log else since a log

-- A released block has less than 2^31 bytes and does not pass the end of the addresses.
abbrev pub block_fits : Record → List Record → Bool
block_fits r log =
    ltb (freed_bytes r log) (2 ^ 31) && ltb (start_address r.op + freed_bytes r log) (2 ^ 64)

abbrev pub blocks_fit : List Record → Bool
blocks_fit [] = true
blocks_fit (r ∷ log) = (if is_release r then block_fits r log else true) && blocks_fit log

-- The histories of the address that ended at a release and were due a warning.
abbrev pub ended_due : ℕ → List Record → ℕ
ended_due a [] = 0
ended_due a (r ∷ log) =
    (if releases a r log && was_due (since a log) then 1 else 0) + ended_due a log
