-- ===== src/Store/State.antt =====
-- What the service's code reads and writes: the tables of app/db/models, the metrics and the
-- concurrency limiter of the process, the clock, and the supply of fresh UUIDs.
use behaviour_sim_api.Base.{ℕ, List}
use behaviour_sim_api.Dict.{Dict}
use behaviour_sim_api.Metrics.{Metrics}
use behaviour_sim_api.Store.Rows.{
  Uuid, Instant, Plan, User, Simulation, MonthlyUsage, UsageEvent, ApiKey, UserSession,
  AuthIdentity,
}

pub record State : Type 0 where
  pub plans : List Plan
  pub users : List User
  pub simulations : List Simulation
  pub monthly_usage : List MonthlyUsage
  pub usage_events : List UsageEvent
  pub api_keys : List ApiKey
  pub user_sessions : List UserSession
  pub auth_identities : List AuthIdentity
  pub metrics : Metrics
  pub active_counts : Dict Uuid ℕ
  pub clock : Instant
  pub next_uuid : Uuid
