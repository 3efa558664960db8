-- ===== src/Tests.antt =====
-- Concrete data for the theorems, and the theorems at that data.
mod Usage
mod Jobs
mod Services
mod Simulations
mod Auth
mod SignIn
mod Diagnostics
use behaviour_sim_api.Base.{
  ℕ, ◌+◌, ◌-◌, ◌*◌, ◌/◌, ◌%◌, ◌≡◌, arith, true, false, Option, none, some, List, [], ◌∷◌, refl,
  str_eq, if◌then◌else◌,
}
use behaviour_sim_api.Store.Rows.{Plan, User, Simulation, MonthlyUsage, Status, pending, running}
use behaviour_sim_api.Store.State.{State}
use behaviour_sim_api.Store.Env.{Calendar, Env, generated}
use behaviour_sim_api.Metrics.{reset}
use behaviour_sim_api.Presets.{codes}

-- A calendar of twelve months of 1000 instants.
abbrev pub toy_calendar : Calendar
toy_calendar = record {
  year = λ t. t / 12_000;
  month = λ t. t % 12_000 / 1000 + 1;
  first_of = λ y m. y * 12_000 + (m - 1) * 1000;
  month_pos = λ t. omega arith;
  month-le = λ t. omega arith;
  before_iff = λ t y m lo hi. (λ h. ground (arith, h, lo, hi), λ h. ground (arith, h, lo, hi));
}

-- A simulator that yields an empty table.
abbrev pub toy_env : Env
toy_env = record {
  calendar = toy_calendar;
  engine = λ preset n seed profile initial_state. record { result = generated []; elapsed = 5 };
  persists = λ w. true;
  api_version = "1.0.0";
  uuid_of = λ t. if str_eq t "7" then some 7 else none;
}

abbrev pub basic : Plan
basic = record {
  id = 1;
  name = "basic";
  monthly_requests = 10;
  monthly_interactions = 1000;
  max_interactions_per_request = 100;
  requests_per_minute = 5;
  max_concurrent_simulations = 1;
  max_api_keys = 2;
  calibration_enabled = true;
  large_exports_enabled = true;
  created_at = 0;
  updated_at = 0;
}

abbrev pub alice : User
alice = record {
  id = 1;
  email = "alice@example.com";
  display_name = none;
  is_active = true;
  plan_id = 1;
  created_at = 0;
  updated_at = 0;
}

-- Nine requests are used of ten, and 900 interactions of 1000.
abbrev pub january : MonthlyUsage
january = record {
  id = 3;
  user_id = 1;
  period_start = 0;
  request_count = 9;
  interaction_count = 900;
  created_at = 0;
  updated_at = 0;
}

abbrev pub queued : Simulation
queued = record {
  id = 7;
  user_id = 1;
  preset = codes "finance";
  num_interactions = 100;
  seed = none;
  profile = none;
  initial_state = none;
  status = pending;
  result_storage = "database";
  result_location = none;
  result_data = none;
  behaviorsim_version = "1.0.1";
  api_version = "1.0.0";
  compute_ms = none;
  reproducible = false;
  error_code = none;
  error_message = none;
  created_at = 400;
  started_at = none;
  completed_at = none;
  updated_at = 400;
  worker_id = none;
  claimed_at = none;
  heartbeat_at = none;
  attempt_count = 0;
  max_attempts = 3;
}

abbrev pub store : State
store = record {
  plans = basic ∷ [];
  users = alice ∷ [];
  simulations = queued ∷ [];
  monthly_usage = january ∷ [];
  usage_events = [];
  api_keys = [];
  user_sessions = [];
  auth_identities = [];
  metrics = reset 0;
  active_counts = [];
  clock = 500;
  next_uuid = 10;
}
