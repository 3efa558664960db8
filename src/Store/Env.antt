-- ===== src/Store/Env.antt =====
-- What the service's code takes from outside src/: Python's calendar and UUID parser, the
-- `behaviorsim` package, and whether the database accepts a write. Each is a field of `Env`.
use behaviour_sim_api.Base.{ℕ, ◌≤◌, ◌<◌, ◌≡◌, ◌↔◌, ◌⊎◌, Bool, Option, String}
use behaviour_sim_api.Store.Rows.{Text, Uuid, Instant, Records}

-- `datetime` in UTC: the year and the month of an instant, and `datetime(year, month, 1)`.
-- Instants are ordered as their dates are.
pub record Calendar : Type 0 where
  pub year : Instant → ℕ
  pub month : Instant → ℕ
  pub first_of : ℕ → ℕ → Instant
  pub month_pos : (t : Instant) → 1 ≤ month t
  pub month-le : (t : Instant) → month t ≤ 12
  pub before_iff :
      (t : Instant) (y m : ℕ)
      → 1 ≤ m
      → m ≤ 12
      → (t < first_of y m) ↔ ((year t < y) ⊎ (year t ≡ y) × (month t < m))

-- How `Simulator.from_preset(...).generate(...)` ends: with a table, with `ValueError` or
-- `TypeError`, or with another exception.
pub data EngineResult : Type 0 where
  generated : Records → EngineResult
  rejected : String → EngineResult
  crashed : EngineResult

-- `elapsed` is in microseconds.
pub record EngineRun : Type 0 where
  pub result : EngineResult
  pub elapsed : ℕ

-- The commits whose failure is modelled: of a new job, of its completed state, and of its failed state
-- where app/services/simulation_job.py writes that, or the worker after a lost completed state.
pub data Write : Type 0 where
  create_job complete_job fail_job : Write

pub record Env : Type 0 where
  pub calendar : Calendar
  pub engine : Text → ℕ → Option ℕ → Option String → Option String → EngineRun
  pub persists : Write → Bool
  pub api_version : String  -- settings.API_VERSION
  pub uuid_of : String → Option Uuid  -- `uuid.UUID(text)`, which raises on other texts
