-- ===== src/Metrics.antt =====
-- `OperationalMetrics` of app/core/metrics.py. Durations are microseconds where the code has float
-- milliseconds; each is the difference of two readings of a clock that does not go back. The lock
-- makes each method one step.
pub mod Requests
use behaviour_sim_api.Base.{
  ℕ, ◌+◌, ◌*◌, Bool, true, false, ◌&&◌, ◌||◌, Option, none, some, List, [], ◌∷◌, map, String, ltb,
  leb, if◌then◌else◌,
}
use behaviour_sim_api.Dict.{Dict, ◌==◌, bump, put, Eq-ℕ, Eq-String, Eq-Text}
use behaviour_sim_api.Store.Rows.{Text, Instant}

-- `(key, threshold)`; the last threshold is `float("inf")`.
abbrev pub latency_histogram_buckets : List (String × Option ℕ)
latency_histogram_buckets =
    ("lt_10ms", some 10_000)
    ∷ ("lt_25ms", some 25_000)
    ∷ ("lt_50ms", some 50_000)
    ∷ ("lt_100ms", some 100_000)
    ∷ ("lt_250ms", some 250_000)
    ∷ ("lt_500ms", some 500_000)
    ∷ ("lt_1s", some 1_000_000)
    ∷ ("lt_2s", some 2_000_000)
    ∷ ("lt_5s", some 5_000_000)
    ∷ ("gt_5s", none)
    ∷ []

-- A count, a total, and the least and greatest value.
pub record Distribution : Type 0 where
  pub count : ℕ
  pub total_of : ℕ
  pub least : Option ℕ
  pub greatest : Option ℕ

abbrev pub no_values : Distribution
no_values = record { count = 0; total_of = 0; least = none; greatest = none }

pub record Metrics : Type 0 where
  pub started_at : Instant
  pub api_requests_total : ℕ
  pub api_requests_by_method : Dict String ℕ
  pub requests_2xx : ℕ
  pub requests_3xx : ℕ
  pub requests_4xx : ℕ
  pub requests_5xx : ℕ
  pub api_requests_by_route_category : Dict String ℕ
  pub api_errors_total : ℕ
  pub api_errors_by_status : Dict ℕ ℕ
  pub auth_failures_total : ℕ
  pub rate_limit_rejections_total : ℕ
  pub quota_exhausted_total : ℕ
  pub api_request_duration : Distribution
  pub api_latency_histogram : Dict String ℕ
  pub simulations_accepted : ℕ
  pub simulations_accepted_by_preset : Dict Text ℕ
  pub simulations_started : ℕ
  pub simulations_completed : ℕ
  pub simulations_failed : ℕ
  pub simulations_failed_by_code : Dict String ℕ
  pub simulations_recovered : ℕ
  pub simulations_failed_after_max_attempts : ℕ
  pub interactions_processed_total : ℕ
  pub worker_compute_total_ms : ℕ
  pub sim_duration : Distribution
  pub queue_wait : Distribution
  pub cleanup_runs_total : ℕ
  pub cleanup_simulations_deleted_total : ℕ
  pub cleanup_failures_total : ℕ
  pub cleanup_duration_total : ℕ
  pub cleanup_last_run_at : Option Instant
  pub cleanup_last_deleted_count : ℕ

-- `reset`, at the time `now`.
unfoldable pub reset : Instant → Metrics
reset now = record {
  started_at = now;
  api_requests_total = 0;
  api_requests_by_method = [];
  requests_2xx = 0;
  requests_3xx = 0;
  requests_4xx = 0;
  requests_5xx = 0;
  api_requests_by_route_category = [];
  api_errors_total = 0;
  api_errors_by_status = [];
  auth_failures_total = 0;
  rate_limit_rejections_total = 0;
  quota_exhausted_total = 0;
  api_request_duration = no_values;
  api_latency_histogram = map (λ b. (b.0, 0)) latency_histogram_buckets;
  simulations_accepted = 0;
  simulations_accepted_by_preset = [];
  simulations_started = 0;
  simulations_completed = 0;
  simulations_failed = 0;
  simulations_failed_by_code = [];
  simulations_recovered = 0;
  simulations_failed_after_max_attempts = 0;
  interactions_processed_total = 0;
  worker_compute_total_ms = 0;
  sim_duration = no_values;
  queue_wait = no_values;
  cleanup_runs_total = 0;
  cleanup_simulations_deleted_total = 0;
  cleanup_failures_total = 0;
  cleanup_duration_total = 0;
  cleanup_last_run_at = none;
  cleanup_last_deleted_count = 0;
}

-- The tests `min is None or v < min` and `max is None or v > max`.
abbrev lower_to : Option ℕ → ℕ → Option ℕ
lower_to none v = some v
lower_to (some m) v = if ltb v m then some v else some m

abbrev raise_to : Option ℕ → ℕ → Option ℕ
raise_to none v = some v
raise_to (some m) v = if ltb m v then some v else some m

unfoldable pub add_value : ℕ → Distribution → Distribution
add_value v d = record {
  count = d.count + 1;
  total_of = d.total_of + v;
  least = lower_to d.least v;
  greatest = raise_to d.greatest v;
}

-- The loop over the buckets, which ends at the first threshold above the duration.
unfoldable pub count_latency : List (String × Option ℕ) → ℕ → Dict String ℕ → Dict String ℕ
count_latency [] dur h = h
count_latency ((key, none) ∷ bs) dur h = bump key h
count_latency ((key, some threshold) ∷ bs) dur h =
    let rest = count_latency bs dur h in if ltb dur threshold then bump key h else rest

-- `method.upper()` is the caller's: `method` is in upper case here.
unfoldable pub record_request : String → ℕ → ℕ → String → Metrics → Metrics
record_request method status_code duration route_category m = record m {
  api_requests_total = m.api_requests_total + 1;
  api_requests_by_method = bump method m.api_requests_by_method;
  requests_2xx =
      if leb 200 status_code && ltb status_code 300 then m.requests_2xx + 1 else m.requests_2xx;
  requests_3xx =
      if leb 300 status_code && ltb status_code 400 then m.requests_3xx + 1 else m.requests_3xx;
  requests_4xx =
      if leb 400 status_code && ltb status_code 500 then m.requests_4xx + 1 else m.requests_4xx;
  requests_5xx = if leb 500 status_code then m.requests_5xx + 1 else m.requests_5xx;
  api_requests_by_route_category =
      bump (if route_category == "" then "other" else route_category)
        m.api_requests_by_route_category;
  api_latency_histogram = count_latency latency_histogram_buckets duration m.api_latency_histogram;
  api_request_duration = add_value duration m.api_request_duration;
  api_errors_total = if leb 400 status_code then m.api_errors_total + 1 else m.api_errors_total;
  api_errors_by_status =
      if leb 400 status_code
      then bump status_code m.api_errors_by_status
      else m.api_errors_by_status;
  auth_failures_total =
      if status_code == 401 || status_code == 403
      then m.auth_failures_total + 1
      else m.auth_failures_total;
  rate_limit_rejections_total =
      if status_code == 429
      then m.rate_limit_rejections_total + 1
      else m.rate_limit_rejections_total;
}

unfoldable pub record_quota_exhausted : Metrics → Metrics
record_quota_exhausted m = record m { quota_exhausted_total = m.quota_exhausted_total + 1 }

unfoldable pub record_simulation_accepted : Text → Metrics → Metrics
record_simulation_accepted preset m = record m {
  simulations_accepted = m.simulations_accepted + 1;
  simulations_accepted_by_preset = bump preset m.simulations_accepted_by_preset;
}

unfoldable pub record_simulation_started : Metrics → Metrics
record_simulation_started m = record m { simulations_started = m.simulations_started + 1 }

unfoldable pub record_simulation_recovered : Metrics → Metrics
record_simulation_recovered m = record m { simulations_recovered = m.simulations_recovered + 1 }

unfoldable pub record_simulation_exhausted_retries : Metrics → Metrics
record_simulation_exhausted_retries m = record m {
  simulations_failed_after_max_attempts = m.simulations_failed_after_max_attempts + 1;
}

abbrev add_optional : Option ℕ → Distribution → Distribution
add_optional none d = d
add_optional (some v) d = add_value v d

unfoldable pub record_simulation_completed : ℕ → Option ℕ → ℕ → Metrics → Metrics
unfolding add_value
record_simulation_completed compute_ms queue_wait_ms num_interactions m = record m {
  simulations_completed = m.simulations_completed + 1;
  interactions_processed_total = m.interactions_processed_total + num_interactions;
  sim_duration = add_value compute_ms m.sim_duration;
  worker_compute_total_ms = m.worker_compute_total_ms + compute_ms;
  queue_wait = add_optional queue_wait_ms m.queue_wait;
}

unfoldable pub record_simulation_failed : String → Metrics → Metrics
record_simulation_failed error_code m = record m {
  simulations_failed = m.simulations_failed + 1;
  simulations_failed_by_code =
      bump (if error_code == "" then "unknown" else error_code) m.simulations_failed_by_code;
}

-- `deleted_count`, the duration, and whether the run succeeded; `now` is `time.time()`.
unfoldable pub record_cleanup_run : Instant → ℕ → ℕ → Bool → Metrics → Metrics
record_cleanup_run now deleted_count duration success m = record m {
  cleanup_runs_total = m.cleanup_runs_total + 1;
  cleanup_last_run_at = some now;
  cleanup_duration_total = m.cleanup_duration_total + duration;
  cleanup_simulations_deleted_total =
      if success
      then m.cleanup_simulations_deleted_total + deleted_count
      else m.cleanup_simulations_deleted_total;
  cleanup_last_deleted_count = if success then deleted_count else m.cleanup_last_deleted_count;
  cleanup_failures_total =
      if success then m.cleanup_failures_total else m.cleanup_failures_total + 1;
}
