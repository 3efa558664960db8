-- ===== src/Tests/Usage.antt =====
-- The theorems on usage, presets and metrics at concrete data.
use behaviour_sim_api.Base.{
  ◌+◌, ◌≤◌, ◌<◌, ◌≡◌, ◌↔◌, ◌&&◌, arith, false, none, some, List, [], ◌∷◌, ◌++◌, refl, ◌==◌,
}
use behaviour_sim_api.Store.Rows.{Uuid, Instant, MonthlyUsage}
use behaviour_sim_api.Store.State.{State}
use behaviour_sim_api.Store.Action.{ok, err}
use behaviour_sim_api.Metrics.{reset, record_request}
use behaviour_sim_api.Metrics.Requests.{
  IsConsistent, reset-IsConsistent, record_request-IsConsistent,
}
use behaviour_sim_api.Presets.{codes, normalize_preset_name, lower, strip}
use behaviour_sim_api.Presets.Execute.{validate_simulation_parameters}
use behaviour_sim_api.Presets.Names.{normalize_preset_name-clean}
use behaviour_sim_api.Presets.Validity.{Accepts, validate_simulation_parameters_lem}
use behaviour_sim_api.Usage.{
  get_current_period_start, get_current_period_end, reserve_usage, refund_usage,
  request_quota_exceeded,
}
use behaviour_sim_api.Usage.Period.{period_iff}
use behaviour_sim_api.Usage.Counts.{counts_of, used, UsageRows}
use behaviour_sim_api.Usage.Quota.{reserve_usage_accepts, reserve_usage_refuses}
use behaviour_sim_api.Usage.Refund.{
  refund_usage_lem, refund_usage-reserve_usage, refund_usage_next_period,
}
use behaviour_sim_api.Usage.Summary.{
  UsageSummary, Accepted, get_user_usage_summary, get_user_usage_summary_lem,
}
use behaviour_sim_api.Usage.History.{Call, reserve, refund, wait, run, Within, run-Within}
use behaviour_sim_api.Tests.{toy_calendar, toy_env, basic, alice, store}

pub store-UsageRows : UsageRows store
store-UsageRows = record { distinct = (tt, tt); fresh = (omega arith, tt) }

-- January is full for one request of 100 interactions, and the month ends.
abbrev calls : List Call
calls = reserve alice 100 1 ∷ reserve alice 1 1 ∷ wait 600 ∷ reserve alice 50 1 ∷ refund 1 50 1 ∷ []

run-Within_example : Within basic (used 1 0 (run toy_env store calls))
run-Within_example =
    run-Within toy_env 1 basic 0 calls store
      ((basic, refl), ((basic, refl), (tt, ((basic, refl), (tt, tt)))))
      ((λ _. refl), ((λ _. refl), (tt, ((λ _. refl), (tt, tt))))) store-UsageRows
      (omega arith, omega arith)

reserve_usage_accepts_example :
    let (r, s') = reserve_usage toy_env alice 100 1 none none store in
    (u : MonthlyUsage) × (r ≡ ok u)
    × (counts_of (some u) ≡ (9 + 1, 900 + 100))
    × (used 1 0 s' ≡ counts_of (some u))
unfolding get_current_period_start
reserve_usage_accepts_example =
    reserve_usage_accepts toy_env alice 100 1 none none store basic refl store-UsageRows
      (omega arith) (omega arith, omega arith)

reserve_usage_refuses_example :
    let (r, s') = reserve_usage toy_env alice 10 2 none none store in
    (u : MonthlyUsage) × (counts_of (some u) ≡ (9, 900))
    × (r ≡ err (request_quota_exceeded basic u))
    × ((v : Uuid) (q : Instant) → used v q s' ≡ used v q store)
    × UsageRows s'
unfolding get_current_period_start
reserve_usage_refuses_example =
    reserve_usage_refuses toy_env alice 10 2 none none store basic refl store-UsageRows
      (omega arith) (λ room. omega (arith, room.0))

get_user_usage_summary_lem_example :
    let (r, t) = get_user_usage_summary toy_env alice store in
    (m : UsageSummary) × (r ≡ ok m)
    × (Accepted (reserve_usage toy_env alice 100 1 none none t)
        ↔ (100 ≤ 100) × (1 ≤ m.remaining_requests) × (100 ≤ m.remaining_interactions))
    × ((v : Uuid) (q : Instant) → used v q t ≡ used v q store)
get_user_usage_summary_lem_example =
    get_user_usage_summary_lem toy_env alice store basic 100 1 none none refl store-UsageRows
      (omega arith) (omega arith)

refund_usage_lem_example :
    (used 1 0 (refund_usage toy_env none (some 1) 400 10 store).1 ≡ (0, 500))
    × ((v : Uuid) (q : Instant)
        → ((v == 1) && (q == 0)) ≡ false
        → used v q (refund_usage toy_env none (some 1) 400 10 store).1 ≡ used v q store)
unfolding get_current_period_start
refund_usage_lem_example = refund_usage_lem toy_env none 1 400 10 store

-- The state at a later time.
abbrev at : Instant → State → State
at t s = record s { clock = t }

abbrev reserved_once : Instant → State
reserved_once t = at t (reserve_usage toy_env alice 100 1 none none store).1

refund_usage-reserve_usage_example :
    used 1 0 (refund_usage toy_env none (some 1) 100 1 (reserved_once 900)).1 ≡ used 1 0 store
unfolding get_current_period_start
refund_usage-reserve_usage_example =
    refund_usage-reserve_usage toy_env alice 100 1 none none store basic refl store-UsageRows
      (omega arith) 900 (omega arith, omega arith) refl 1 0

refund_usage_next_period_example :
    used 1 0 (refund_usage toy_env none (some 1) 100 1 (reserved_once 1200)).1 ≡ (9 + 1, 900 + 100)
unfolding get_current_period_start
refund_usage_next_period_example =
    refund_usage_next_period toy_env alice 100 1 none none store basic refl store-UsageRows
      (omega arith) 1200 (omega arith, omega arith) (λ e. omega (arith, e))

period_iff_example :
    ((get_current_period_start toy_calendar 1500 ≤ 1999)
      × (1999 < get_current_period_end toy_calendar 1500))
    ↔ (get_current_period_start toy_calendar 1999 ≡ get_current_period_start toy_calendar 1500)
period_iff_example = period_iff toy_calendar 1500 1999

normalize_preset_name-clean_example :
    normalize_preset_name (lower (strip (codes " Mobile ")))
    ≡ normalize_preset_name (codes " Mobile ")
normalize_preset_name-clean_example = normalize_preset_name-clean (codes " Mobile ")

validate_simulation_parameters_lem_example :
    (validate_simulation_parameters
        (codes " " ++ (codes "Mobile" ++ codes " "))
        none
        (some "Browsing")
        store
      ≡ (ok (codes "mobile_app"), store))
    ↔ Accepts (codes "Mobile") none (some "Browsing") (codes "mobile_app")
validate_simulation_parameters_lem_example =
    validate_simulation_parameters_lem (codes " ") (codes "Mobile") (codes " ") none
      (some "Browsing") (codes "mobile_app") store (refl, tt) refl refl (refl, tt)

record_request-IsConsistent_example :
    IsConsistent (record_request "GET" 429 12_000 "usage" (reset 0))
record_request-IsConsistent_example =
    record_request-IsConsistent "GET" 429 12_000 "usage" (reset 0) (reset-IsConsistent 0)
