-- ===== src/Usage/Summary.antt =====
-- `get_user_usage_summary` of app/services/usage.py, and what its answer says of the next reservation.
use behaviour_sim_api.Base.{
  ℕ, ◌-◌, ◌+◌, ◌≤◌, ◌≡◌, ◌↔◌, ◌∙◌, ap, sym, refl, inl, inr, arith, Option, some, String, Bool-cases,
  ltb, leb, ltb→lt, find_first, ◌==◌, ◌&&◌,
}
use behaviour_sim_api.Store.Rows.{Uuid, Instant, Plan, User, MonthlyUsage}
use behaviour_sim_api.Store.State.{State}
use behaviour_sim_api.Store.Env.{Env, Calendar}
use behaviour_sim_api.Store.Action.{Action, Result, ok, bind_ok, pure, utc_now, ◌>>=◌}
use behaviour_sim_api.Usage.{
  user_plan, get_current_period_start, get_current_period_end, get_or_create_monthly_usage,
  reserve_usage, resolve_plan,
}
use behaviour_sim_api.Usage.Counts.{counts_of, used, UsageRows, get_or_create-HasRow}
use behaviour_sim_api.Usage.Quota.{
  Room, reserve_usage_accepts, reserve_usage_refuses, reserve_usage_limit,
}

pub record UsageSummary : Type 0 where
  pub plan : Plan
  pub period_start : Instant
  pub period_end : Instant
  pub requests : ℕ
  pub interactions : ℕ
  pub remaining_requests : ℕ
  pub remaining_interactions : ℕ

-- `max(0, limit - count)` is the truncated difference.
abbrev pub summary_of : Calendar → Plan → Instant → MonthlyUsage → UsageSummary
summary_of calendar plan now usage = record {
  plan = plan;
  period_start = get_current_period_start calendar now;
  period_end = get_current_period_end calendar now;
  requests = usage.request_count;
  interactions = usage.interaction_count;
  remaining_requests = plan.monthly_requests - usage.request_count;
  remaining_interactions = plan.monthly_interactions - usage.interaction_count;
}

-- The summary once the plan is known.
unfoldable pub summarize : Env → User → Plan → Action UsageSummary
summarize env user plan = do
  now ← utc_now
  usage ← get_or_create_monthly_usage user.id (get_current_period_start env.calendar now)
  pure (summary_of env.calendar plan now usage)

unfoldable pub get_user_usage_summary : Env → User → Action UsageSummary
get_user_usage_summary env user = resolve_plan user >>= summarize env user

-- The reservation is accepted.
abbrev pub Accepted : Result MonthlyUsage × State → Type 0
Accepted q = (u : MonthlyUsage) × (q.0 ≡ ok u)

module _ (env : Env) (user : User) (s : State) (plan : Plan)
    (has_plan : user_plan s user ≡ some plan) (h : UsageRows s) where
  get_user_usage_summary-eq :
      (u : MonthlyUsage) (t : State)
      → get_or_create_monthly_usage user.id (get_current_period_start env.calendar s.clock) s
        ≡ (ok u, t)
      → get_user_usage_summary env user s ≡ (ok (summary_of env.calendar plan s.clock u), t)
  unfolding get_user_usage_summary summarize resolve_plan
  get_user_usage_summary-eq u t found =
      bind_ok (resolve_plan user) (summarize env user) s (rw (has_plan, resolve_plan) refl)
      ∙ bind_ok
          (get_or_create_monthly_usage user.id (get_current_period_start env.calendar s.clock))
          (λ usage. pure (summary_of env.calendar plan s.clock usage)) s found

  -- A reservation is accepted exactly if it is within the plan's limit for one request and fits.
  reserve_usage_iff :
      (requested delta : ℕ) (key : Option Uuid) (rid : Option String)
      → Accepted (reserve_usage env user requested delta key rid s)
        ↔ (requested ≤ plan.max_interactions_per_request)
          × Room plan requested delta
              (used user.id (get_current_period_start env.calendar s.clock) s)
  reserve_usage_iff requested delta key rid =
      let n = used user.id (get_current_period_start env.calendar s.clock) s in
      (
        λ (u, accepted).
            let small : requested ≤ plan.max_interactions_per_request =
              elim (Bool-cases (ltb plan.max_interactions_per_request requested)) [
                | inl large ↦
                    let refused =
                      reserve_usage_limit env user requested delta key rid s plan has_plan h
                        (ltb→lt _ _ large) in
                    ground (arith, sym (ap (λ q. q.0) refused) ∙ accepted)
                | inr small ↦ ground (arith, small)
              ] in
            (
              small,
              elim (Bool-cases (
                  leb (n.0 + delta) plan.monthly_requests
                  && leb (n.1 + requested) plan.monthly_interactions)) [
                    | inl fits ↦ ground (arith, fits)
                    | inr full ↦
                        let (_, _, refused, _, _) =
                          reserve_usage_refuses env user requested delta key rid s plan has_plan h
                            small (λ room. ground (arith, full, room)) in
                        ground (arith, sym refused ∙ accepted)
                  ],
            ),
        λ (small, room).
            let (u, accepted, _, _) =
              reserve_usage_accepts env user requested delta key rid s plan has_plan h small room in
            (u, accepted),
      )

-- For a user with a plan, usage rows with distinct and used ids, and a request for at least one
-- interaction that counts at least once: the summary tells what is left. A reservation right after it
-- is accepted exactly if it is within the plan's limit for one request and asks for no more than the
-- summary's remaining requests and interactions. The summary changes no user's counts.
pub get_user_usage_summary_lem :
    (env : Env) (user : User) (s : State) (plan : Plan) (requested delta : ℕ) (key : Option Uuid)
    (rid : Option String)
    → user_plan s user ≡ some plan
    → UsageRows s
    → 1 ≤ requested
    → 1 ≤ delta
    → let (r, t) = get_user_usage_summary env user s in
      (m : UsageSummary) × (r ≡ ok m)
      × (Accepted (reserve_usage env user requested delta key rid t)
          ↔ (requested ≤ plan.max_interactions_per_request)
            × (delta ≤ m.remaining_requests)
            × (requested ≤ m.remaining_interactions))
      × ((v : Uuid) (q : Instant) → used v q t ≡ used v q s)
get_user_usage_summary_lem env user s plan requested delta key rid has_plan h some_interactions
      some_requests =
    let period = get_current_period_start env.calendar s.clock in
    let (u, created, row) = get_or_create-HasRow user.id period s h in
    let t = (get_or_create_monthly_usage user.id period s).1 in
    let (only_if, accept) =
      reserve_usage_iff env user t plan
        (ap (find_first (λ p. p.id == user.plan_id)) row.same_plans ∙ has_plan) row.rows requested
        delta key rid in
    let same : used user.id (get_current_period_start env.calendar t.clock) t ≡ counts_of (some u) =
      ap (λ c. used user.id (get_current_period_start env.calendar c) t) row.same_clock
      ∙ row.others user.id period
      ∙ sym row.counts in
    rw (get_user_usage_summary-eq env user s plan has_plan h u t (λ i. (created i, t))) (
      summary_of env.calendar plan s.clock u,
      refl,
      (
        λ a. let (small, room) = only_if a in ground (arith, small, same, room),
        λ (small, few, less).
            accept (small, ground (arith, same, few, less, some_requests, some_interactions)),
      ),
      row.others,
    )
