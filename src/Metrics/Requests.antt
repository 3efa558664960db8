-- ===== src/Metrics/Requests.antt =====
-- Laws of the request counters of app/core/metrics.py.
use behaviour_sim_api.Base.{
  ℕ, ◌+◌, ◌≤◌, ◌≡◌, Option, none, some, List, [], ◌∷◌, ◌++◌, String, arith,
}
use behaviour_sim_api.Dict.{Dict, total, total-bump, Eq-ℕ, Eq-String}
use behaviour_sim_api.Store.Rows.{Instant}
use behaviour_sim_api.Metrics.{
  Metrics, count_latency, latency_histogram_buckets, record_request, add_value, reset,
}

-- One bucket is counted, since the last threshold is infinite.
total-count_latency :
    (bs : List (String × Option ℕ)) (last : String) (dur : ℕ) (h : Dict String ℕ)
    → total (count_latency (bs ++ (last, none) ∷ []) dur h) ≡ total h + 1
unfolding count_latency
total-count_latency [] last dur h = total-bump last h
total-count_latency ((key, none) ∷ bs) last dur h = total-bump key h
total-count_latency ((key, some t) ∷ bs) last dur h =
    ground (arith, total-bump key h, total-count_latency bs last dur h)

finite_buckets : List (String × Option ℕ)
finite_buckets =
    ("lt_10ms", some 10_000)
    ∷ ("lt_25ms", some 25_000)
    ∷ ("lt_50ms", some 50_000)
    ∷ ("lt_100ms", some 100_000)
    ∷ ("lt_250ms", some 250_000)
    ∷ ("lt_500ms", some 500_000)
    ∷ ("lt_1s", some 1_000_000)
    ∷ ("lt_2s", some 2_000_000)
    ∷ ("lt_5s", some 5_000_000)
    ∷ []

total-histogram :
    (dur : ℕ) (h : Dict String ℕ)
    → total (count_latency latency_histogram_buckets dur h) ≡ total h + 1
unfolding finite_buckets
total-histogram dur h = total-count_latency finite_buckets "gt_5s" dur h

-- What the request counters say of one another.
pub record IsConsistent (m : Metrics) : Type 0 where
  pub methods : total m.api_requests_by_method ≡ m.api_requests_total
  pub routes : total m.api_requests_by_route_category ≡ m.api_requests_total
  pub histogram : total m.api_latency_histogram ≡ m.api_requests_total
  pub durations : m.api_request_duration.count ≡ m.api_requests_total
  pub classes :
      m.requests_2xx + m.requests_3xx + m.requests_4xx + m.requests_5xx ≤ m.api_requests_total
  pub errors : m.requests_4xx + m.requests_5xx ≡ m.api_errors_total
  pub statuses : total m.api_errors_by_status ≡ m.api_errors_total
  pub rejections : m.auth_failures_total + m.rate_limit_rejections_total ≤ m.api_errors_total

pub reset-IsConsistent : (now : Instant) → IsConsistent (reset now)
unfolding reset
reset-IsConsistent now = omega arith

-- Recording any request keeps the counters consistent: the totals by method, by route category and
-- by latency bucket each equal the number of requests, and the errors by status equal the 4xx and
-- 5xx responses.
pub record_request-IsConsistent :
    (method : String) (status_code duration : ℕ) (route_category : String) (m : Metrics)
    → IsConsistent m
    → IsConsistent (record_request method status_code duration route_category m)
unfolding record_request add_value
record_request-IsConsistent method status_code duration route_category m h = record {
  methods = omega (arith, h.methods, total-bump method m.api_requests_by_method);
  routes = grind (arith, h.routes, total-bump);
  histogram = omega (arith, h.histogram, total-histogram duration m.api_latency_histogram);
  durations = omega (arith, h.durations);
  classes = ground (arith, h.classes);
  errors = ground (arith, h.errors);
  statuses = ground (arith, h.statuses, total-bump status_code m.api_errors_by_status);
  rejections = ground (arith, h.rejections);
}
