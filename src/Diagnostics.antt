-- ===== src/Diagnostics.antt =====
-- app/api/v1/diagnostics.py: the queue's counts and ages behind a cache, and the health indicators.
-- `time.time()` and the clock of the dates are one clock. Python's `round` is a parameter. The rest of
-- the answer is the version and the counters of the metrics.
pub mod Freshness
use behaviour_sim_api.Base.{
  ℕ, ◌+◌, ◌-◌, ◌*◌, Bool, true, false, ◌&&◌, not, Option, none, some, List, [], ◌∷◌, String, min,
  ltb, ◌==◌, count_where, if◌then◌else◌,
}
use behaviour_sim_api.Store.Rows.{Instant, Status, Simulation, pending, running}
use behaviour_sim_api.Store.State.{State}
use behaviour_sim_api.Metrics.{Metrics}
use behaviour_sim_api.Jobs.{status_eq}
use behaviour_sim_api.Worker.{seconds}

-- `round(x, 2)`: of microseconds, to hundredths of a second; and of a quotient, to hundredths of a
-- percent.
pub record Rounding : Type 0 where
  pub age : ℕ → ℕ
  pub percent : ℕ → ℕ → ℕ

pub record QueueStatus : Type 0 where
  pub pending_count : ℕ
  pub running_count : ℕ
  pub depth : ℕ
  pub oldest_pending_age : Option ℕ
  pub oldest_running_age : Option ℕ

-- `_queue_cache_time` and `_queue_cached_data`.
pub record QueueCache : Type 0 where
  pub time : Instant
  pub cached : QueueStatus

unfoldable pub reset_diagnostics_cache : QueueCache
reset_diagnostics_cache = record {
  time = 0;
  cached = record {
    pending_count = 0;
    running_count = 0;
    depth = 0;
    oldest_pending_age = none;
    oldest_running_age = none;
  };
}

-- `func.min` of a column of the rows with a status, which passes over NULL.
unfoldable pub earliest : (Simulation → Option Instant) → Status → List Simulation → Option Instant
earliest column status [] = none
earliest column status (j ∷ js) =
    let rest = earliest column status js in
    if status_eq j.status status
    then elim (column j) [
      | none ↦ rest
      | some t ↦ elim rest [ none ↦ some t | some u ↦ some (min t u) ]
    ]
    else rest

-- `max(0.0, round((now - t).total_seconds(), 2))`
unfoldable pub age_of : Rounding → Instant → Option Instant → Option ℕ
age_of round now none = none
age_of round now (some t) = some (round.age (now - t))

-- The counts and the ages that the two queries give.
unfoldable pub queue_status : Rounding → State → QueueStatus
queue_status round s =
    let waiting = count_where (λ j. status_eq j.status pending) s.simulations in
    let active = count_where (λ j. status_eq j.status running) s.simulations in
    record {
      pending_count = waiting;
      running_count = active;
      depth = waiting + active;
      oldest_pending_age =
          age_of round s.clock (earliest (λ j. some j.created_at) pending s.simulations);
      oldest_running_age =
          age_of round s.clock (earliest (λ j. j.started_at) running s.simulations);
    }

-- The answer and the new cache.
unfoldable pub get_cached_queue_metrics :
    Rounding → Instant → State → QueueCache → QueueStatus × QueueCache
get_cached_queue_metrics round ttl s cache =
    if ltb s.clock (cache.time + ttl)
    then (cache.cached, cache)
    else (queue_status round s, record { time = s.clock; cached = queue_status round s })

unfoldable pub get_cached_queue_counts :
    Rounding → Instant → State → QueueCache → (ℕ × ℕ) × QueueCache
get_cached_queue_counts round ttl s cache =
    let (q, cache') = get_cached_queue_metrics round ttl s cache in
    ((q.pending_count, q.running_count), cache')

abbrev pub queue_cache_ttl : ℕ
queue_cache_ttl = seconds 5

pub record HealthIndicators : Type 0 where
  pub queue_healthy : Bool
  pub cleanup_healthy : Bool
  pub error_rate_pct : ℕ

abbrev pub cleanup_stale_threshold : ℕ
cleanup_stale_threshold = seconds (26 * 3600)

-- `stale_warning` of the summary of the metrics.
unfoldable pub stale_cleanup : Instant → Metrics → Bool
stale_cleanup now m = elim m.cleanup_last_run_at [
  | none ↦ false
  | some t ↦ ltb cleanup_stale_threshold (now - t)
]

unfoldable pub health : Rounding → State → QueueStatus → HealthIndicators
health round s q = record {
  queue_healthy =
      ltb q.depth 50 && elim q.oldest_pending_age [ none ↦ true | some age ↦ ltb age 6000 ];
  cleanup_healthy = not (stale_cleanup s.clock s.metrics);
  error_rate_pct =
      if s.metrics.api_requests_total == 0
      then 0
      else round.percent s.metrics.requests_5xx s.metrics.api_requests_total;
}

unfoldable pub get_diagnostics :
    Rounding → State → QueueCache → (QueueStatus × HealthIndicators) × QueueCache
get_diagnostics round s cache =
    let (q, cache') = get_cached_queue_metrics round queue_cache_ttl s cache in
    ((q, health round s q), cache')
