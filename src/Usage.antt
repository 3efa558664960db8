-- ===== src/Usage.antt =====
-- app/services/usage.py and app/services/plan.py. Every commit here succeeds. The branch for an
-- `IntegrityError` is a row that another transaction inserted meanwhile: it ends as if the row had
-- been found. `users.plan_id` is a foreign key, so `user.plan` is `None` for no row of the schema;
-- where it is, the plan that is assigned is written with the reservation.
pub mod Period
pub mod Counts
pub mod Charge
pub mod Quota
pub mod Refund
pub mod History
pub mod Summary
use behaviour_sim_api.Base.{
  ℕ, ◌+◌, ◌-◌, ◌≤◌, Bool, true, false, ◌&&◌, not, Option, none, some, List, [], ◌∷◌, ◌++◌, String,
  ltb, leb, ◌==◌, str_eq, if◌then◌else◌, find_first, update_where, count_where,
}
use behaviour_sim_api.Store.Rows.{Uuid, Instant, Plan, User, MonthlyUsage, UsageEvent, number, text}
use behaviour_sim_api.Store.State.{State}
use behaviour_sim_api.Store.Env.{Env, Calendar}
use behaviour_sim_api.Store.Action.{
  ApiError, Error, api_error, crash, Action, pure, raise, raise_if, gets, modify, utc_now, uuid4,
  ◌>>=◌, ◌>>◌,
}
use behaviour_sim_api.Metrics.{record_quota_exhausted}

unfoldable pub get_current_period_start : Calendar → Instant → Instant
get_current_period_start c dt = c.first_of (c.year dt) (c.month dt)

unfoldable pub get_current_period_end : Calendar → Instant → Instant
get_current_period_end c dt =
    if c.month dt == 12
    then c.first_of (c.year dt + 1) 1
    else c.first_of (c.year dt) (c.month dt + 1)

abbrev pub free_plan_id : Uuid
free_plan_id = 1

abbrev pub free_plan_defaults : Instant → Plan
free_plan_defaults now = record {
  id = free_plan_id;
  name = "free";
  monthly_requests = 100;
  monthly_interactions = 10000;
  max_interactions_per_request = 1000;
  requests_per_minute = 5;
  max_concurrent_simulations = 1;
  max_api_keys = 1;
  calibration_enabled = false;
  large_exports_enabled = false;
  created_at = now;
  updated_at = now;
}

unfoldable pub get_or_create_free_plan : Action Plan
get_or_create_free_plan s = elim (find_first (λ p. str_eq p.name "free") s.plans) [
  | some p ↦ pure p s
  | none ↦
      pure (free_plan_defaults s.clock)
        (record s { plans = s.plans ++ free_plan_defaults s.clock ∷ [] })
]

-- `user.plan`
abbrev pub user_plan : State → User → Option Plan
user_plan s user = find_first (λ p. p.id == user.plan_id) s.plans

-- `user.plan = plan`, as the next commit writes it; nothing is written where the user had that plan.
abbrev pub set_plan : User → Plan → State → State
set_plan user plan s = record s {
  users =
      update_where (λ u. u.id == user.id && not (user.plan_id == plan.id))
        (λ u. record u { plan_id = plan.id }) s.users;
}

-- `plan = user.plan`, or the free plan.
unfoldable pub resolve_plan : User → Action Plan
unfolding get_or_create_free_plan
resolve_plan user s = elim (user_plan s user) [
  | some p ↦ pure p s
  | none ↦ get_or_create_free_plan s
]

abbrev pub is_row : Uuid → Instant → MonthlyUsage → Bool
is_row user_id period_start u = u.user_id == user_id && u.period_start == period_start

abbrev pub new_usage : Uuid → Uuid → Instant → Instant → MonthlyUsage
new_usage id user_id period_start now = record {
  id = id;
  user_id = user_id;
  period_start = period_start;
  request_count = 0;
  interaction_count = 0;
  created_at = now;
  updated_at = now;
}

unfoldable pub get_or_create_monthly_usage : Uuid → Instant → Action MonthlyUsage
get_or_create_monthly_usage user_id period_start s =
    elim (find_first (is_row user_id period_start) s.monthly_usage) [
      | some usage ↦ pure usage s
      | none ↦
          (do
            id ← uuid4
            now ← utc_now
            modify (λ t. record t {
              monthly_usage = t.monthly_usage ++ new_usage id user_id period_start now ∷ [];
            })
            pure (new_usage id user_id period_start now))
            s
    ]

unfoldable pub interaction_limit_exceeded : Plan → ℕ → Error
interaction_limit_exceeded plan requested = api_error (record {
  message = record {
    template = "Requested interaction count ({}) exceeds your plan's single-request limit of {}.";
    values = number requested ∷ number plan.max_interactions_per_request ∷ [];
  };
  status_code = 400;
  error_code = "interaction_limit_exceeded";
  details =
      ("max_allowed", number plan.max_interactions_per_request)
      ∷ ("requested", number requested)
      ∷ [];
  headers = [];
})

unfoldable pub request_quota_exceeded : Plan → MonthlyUsage → Error
request_quota_exceeded plan usage = api_error (record {
  message = record {
    template = "Monthly request quota exhausted ({}/{}).";
    values = number usage.request_count ∷ number plan.monthly_requests ∷ [];
  };
  status_code = 429;
  error_code = "quota_exceeded";
  details =
      ("resource", text "requests")
      ∷ ("current", number usage.request_count)
      ∷ ("limit", number plan.monthly_requests)
      ∷ [];
  headers = [];
})

unfoldable pub interaction_quota_exceeded : Plan → MonthlyUsage → Error
interaction_quota_exceeded plan usage = api_error (record {
  message = record {
    template = "Monthly interaction quota exhausted ({}/{}).";
    values = number usage.interaction_count ∷ number plan.monthly_interactions ∷ [];
  };
  status_code = 429;
  error_code = "quota_exceeded";
  details =
      ("resource", text "interactions")
      ∷ ("current", number usage.interaction_count)
      ∷ ("limit", number plan.monthly_interactions)
      ∷ [];
  headers = [];
})

-- The `where` clause and the `values` of the conditional update.
abbrev pub fits : Plan → ℕ → ℕ → MonthlyUsage → Bool
fits plan requested delta u =
    leb (u.request_count + delta) plan.monthly_requests
    && leb (u.interaction_count + requested) plan.monthly_interactions

abbrev pub add_usage : ℕ → ℕ → Instant → MonthlyUsage → MonthlyUsage
add_usage requested delta now u = record u {
  request_count = u.request_count + delta;
  interaction_count = u.interaction_count + requested;
  updated_at = now;
}

-- `db.add(UsageEvent(...))` with its fresh id.
unfoldable pub add_event :
    Option Uuid → Option Uuid → String → Option String → ℕ → Option ℕ → Bool → Action (Unit {0})
add_event user_id api_key_id event_type request_id interaction_count compute_ms success = do
  id ← uuid4
  now ← utc_now
  modify (λ s. record s {
    usage_events =
        s.usage_events
        ++ (record {
          id = id;
          user_id = user_id;
          api_key_id = api_key_id;
          event_type = event_type;
          request_id = request_id;
          interaction_count = interaction_count;
          compute_ms = compute_ms;
          success = success;
          created_at = now;
          metadata_json = none;
        })
          ∷ [];
  })

abbrev pub row_by_id : Uuid → State → Option MonthlyUsage
row_by_id id s = find_first (λ u. u.id == id) s.monthly_usage

-- `db.refresh(usage)`, which raises where the row is gone.
abbrev pub refresh_usage : MonthlyUsage → Action MonthlyUsage
refresh_usage usage s = elim (row_by_id usage.id s) [ none ↦ raise crash s | some u ↦ pure u s ]

-- The branch `result.rowcount == 0`.
unfoldable pub quota_exhausted : Plan → ℕ → MonthlyUsage → Action MonthlyUsage
quota_exhausted plan delta usage = do
  u ← refresh_usage usage
  modify (λ s. record s { metrics = record_quota_exhausted s.metrics })
  raise (
      if ltb plan.monthly_requests (u.request_count + delta)
      then request_quota_exceeded plan u
      else interaction_quota_exceeded plan u)

-- The branch that goes on.
unfoldable pub charge_usage :
    User → Plan → ℕ → ℕ → Option Uuid → Option String → MonthlyUsage → Action MonthlyUsage
unfolding add_event
charge_usage user plan requested delta api_key_id request_id usage = do
  now ← utc_now
  modify (λ s. record s {
    monthly_usage =
        update_where (λ u. u.id == usage.id && fits plan requested delta u)
          (add_usage requested delta now) s.monthly_usage;
  })
  modify (set_plan user plan)
  add_event (some user.id) api_key_id "simulation_request" request_id requested none true
  refresh_usage usage

-- The conditional update, and what follows from the number of rows that it changed.
unfoldable pub settle_usage :
    User → ℕ → ℕ → Option Uuid → Option String → Plan → MonthlyUsage → Action MonthlyUsage
settle_usage user requested delta api_key_id request_id plan usage = do
  rows ←
      gets (λ s. count_where (λ u. u.id == usage.id && fits plan requested delta u) s.monthly_usage)
  if rows == 0
      then quota_exhausted plan delta usage
      else charge_usage user plan requested delta api_key_id request_id usage

-- `reserve_usage` once the plan is known.
unfoldable pub reserve_for_plan :
    Env → User → ℕ → ℕ → Option Uuid → Option String → Plan → Action MonthlyUsage
reserve_for_plan env user requested delta api_key_id request_id plan = do
  raise_if (ltb plan.max_interactions_per_request requested)
      (interaction_limit_exceeded plan requested)
  now ← utc_now
  usage ← get_or_create_monthly_usage user.id (get_current_period_start env.calendar now)
  settle_usage user requested delta api_key_id request_id plan usage

unfoldable pub reserve_usage :
    Env → User → ℕ → ℕ → Option Uuid → Option String → Action MonthlyUsage
reserve_usage env user requested delta api_key_id request_id =
    resolve_plan user >>= reserve_for_plan env user requested delta api_key_id request_id

-- `user_id or (user.id if user else None)`
abbrev pub target_user_id : Option User → Option Uuid → Option Uuid
target_user_id user (some id) = some id
target_user_id (some u) none = some u.id
target_user_id none none = none

unfoldable pub record_usage_result :
    Option User → Option Uuid → String → Bool → ℕ → Option ℕ → Option Uuid → Action (Unit {0})
unfolding add_event
record_usage_result user user_id event_type success interaction_count compute_ms api_key_id =
    add_event (target_user_id user user_id) api_key_id event_type none interaction_count compute_ms
      success

-- The two `case` expressions, and the time of the update.
abbrev pub subtract_usage : ℕ → ℕ → Instant → MonthlyUsage → MonthlyUsage
subtract_usage requested delta now u = record u {
  request_count = if leb delta u.request_count then u.request_count - delta else 0;
  interaction_count =
      if leb requested u.interaction_count then u.interaction_count - requested else 0;
  updated_at = now;
}

abbrev pub refund_rows : Instant → Uuid → ℕ → ℕ → Instant → List MonthlyUsage → List MonthlyUsage
refund_rows period_start user_id requested delta now =
    update_where (is_row user_id period_start) (subtract_usage requested delta now)

unfoldable pub refund_usage : Env → Option User → Option Uuid → ℕ → ℕ → Action (Unit {0})
refund_usage env user user_id requested delta s = elim (target_user_id user user_id) [
  | none ↦ pure tt s
  | some id ↦
      modify
        (λ t. record t {
          monthly_usage =
              refund_rows (get_current_period_start env.calendar t.clock) id requested delta t.clock
                t.monthly_usage;
        })
        s
]
