-- ===== src/Profiler/Kernel.antt =====
-- What the attach of racez_pmuprofiler.cc asks of libpfm and the kernel, and what it is given: requests,
-- registers, and the sampling buffer. The bits of a register's flags are kept one by one.
use racez.Base.{
  ℕ, ◌-◌, ◌/◌, ◌%◌, ◌^◌, Bool, true, false, not, ◌&&◌, List, [], ◌∷◌, Option, none, some, map, leb,
  ◌==◌, if◌then◌else◌, length, Outcome, ok, fault, exited, out_of_bounds, divided_by_zero, ◌>>◌,
}
use racez.Sample.{Pmu}
use racez.Preload.{Process}

-- A control register and a data register, as they are written.
pub record Pmc : Type 0 where
  pub reg_num : ℕ
  pub reg_value : ℕ
  pub no_emul64 : Bool

pub record Pmd : Type 0 where
  pub reg_num : ℕ
  pub reg_value : ℕ
  pub reg_long_reset : ℕ
  pub reg_short_reset : ℕ
  pub reg_smpl_pmds : ℕ
  pub ovfl_notify : Bool

-- A request to libpfm or to the kernel, with the descriptor that it is about, or the entry of the
-- descriptor in the map.
pub data Request : Type 0 where
  initialize : Request
  find_event : Request
  create_context : (sampling_buffer : Option ℕ) → Request
  map_buffer : ℕ → (size : ℕ) → Request
  dispatch_events : (pebs_used : Bool) → Request
  write_pmcs : ℕ → List Pmc → Request
  write_pmds : ℕ → List Pmd → Request
  load_context : ℕ → (tid : ℕ) → Request
  set_async : ℕ → Request
  set_owner : ℕ → (tid : ℕ) → Request
  set_signal : ℕ → Request
  enter : ℕ → Request
  start : ℕ → Request

-- The header of a sampling buffer, where it is mapped.
pub record Mapped : Type 0 where
  pub address : ℕ
  pub version : ℕ
  pub entry_size : ℕ
  pub pebs_size : ℕ

-- The registers for an event: the control registers with their values, and the data registers.
pub record Assignment : Type 0 where
  pub pmcs : List (ℕ × ℕ)
  pub pmds : List ℕ

-- What the requests give: none and false where they fail. `sizes` is the size of an entry of the
-- sampling buffer and of its header together, and `ibsopctl` the value with its two fields set.
pub record Kernel : Type 0 where
  pub initialized : Bool
  pub pmu : Pmu
  pub event_found : Bool
  pub sizes : ℕ
  pub context : Option ℕ
  pub second_context : ℕ
  pub buffer : Option Mapped
  pub assigned : Option Assignment
  pub pmcs_written : Bool
  pub pmds_written : Bool
  pub loaded : Bool
  pub async_set : Bool
  pub signal_set : Bool
  pub ibsopctl : ℕ

-- What the functions leave: their requests, the header that is stored for the thread, the process.
pub record Attached : Type 0 where
  pub requests : List Request
  pub header : Option ℕ
  pub process : Process

-- `errx`, `err` and `fatal_error` where a call failed.
abbrev pub or_exit : Bool → Outcome (Unit {0})
or_exit done = if done then ok tt else fault exited

abbrev pub given {ℓ} : {A : Type ℓ} → Option A → Outcome A
given none = fault exited
given (some a) = ok a

-- `-SMPL_PERIOD`
abbrev pub no_period : ℕ
no_period = 2 ^ 64 - 200001

-- The arrays `pc` and `pd`, of 16 registers each.
unfoldable pub set_pmcs : (pebs_used : Bool) → List (ℕ × ℕ) → List Pmc
set_pmcs pebs_used [] = []
set_pmcs pebs_used ((number, value) ∷ pmcs) =
    record { reg_num = number; reg_value = value; no_emul64 = pebs_used && number == 0 }
    ∷ set_pmcs pebs_used pmcs

abbrev pub blank_pmd : ℕ → Pmd
blank_pmd number = record {
  reg_num = number;
  reg_value = 0;
  reg_long_reset = 0;
  reg_short_reset = 0;
  reg_smpl_pmds = 0;
  ovfl_notify = false;
}

-- The first data register counts down a period.
unfoldable pub set_pmds : List ℕ → List Pmd
set_pmds [] = []
set_pmds (number ∷ pmds) =
    record (blank_pmd number) {
      reg_value = no_period;
      reg_long_reset = no_period;
      reg_short_reset = no_period;
      ovfl_notify = true;
    }
    ∷ map blank_pmd pmds

abbrev pub fit_arrays : Assignment → Outcome (Unit {0})
fit_arrays a =
    if leb (length a.pmcs) 16 && leb (length a.pmds) 16 then ok tt else fault out_of_bounds

-- `((version >> 16) & 0xff) < 1`, and the number of entries that is printed.
unfoldable pub check_buffer : Mapped → Outcome (Unit {0})
check_buffer b = do
  or_exit (not (b.version / 2 ^ 16 % 2 ^ 8 == 0))
  (if b.entry_size == 0 then fault divided_by_zero else ok tt)
