-- ===== src/Usage/Quota.antt =====
-- What `reserve_usage` of app/services/usage.py promises.
use behaviour_sim_api.Base.{
  ℕ, ◌+◌, ◌≤◌, ◌<◌, ◌≡◌, refl, inl, inr, arith, Bool, true, false, ◌&&◌, Option, some, String, ltb,
  ◌==◌, if◌then◌else◌, Bool-cases, lt→ltb, ltb→lt, ap, find_first, count_where, count_where-pos,
  count_where-key, ==_refl, ◌∙◌,
}
use behaviour_sim_api.Store.Rows.{Uuid, Instant, Plan, User, MonthlyUsage}
use behaviour_sim_api.Store.State.{State}
use behaviour_sim_api.Store.Env.{Env}
use behaviour_sim_api.Store.Action.{ok, err, bind_ok, raise_if, ◌>>=◌, ◌>>◌}
use behaviour_sim_api.Usage.{
  is_row, user_plan, get_current_period_start, get_or_create_monthly_usage, reserve_usage,
  resolve_plan, settle_usage, reserve_for_plan, fits, interaction_limit_exceeded,
  request_quota_exceeded, interaction_quota_exceeded, charge_usage, quota_exhausted,
}
use behaviour_sim_api.Usage.Counts.{counts_of, used, UsageRows, get_or_create-HasRow, by_id}
use behaviour_sim_api.Usage.Charge.{charge_usage_lem, charge_usage-others, quota_exhausted_lem}

-- The plan leaves room for the request beside what is used.
abbrev pub Room : Plan → ℕ → ℕ → ℕ × ℕ → Type 0
Room plan requested delta n =
    (n.0 + delta ≤ plan.monthly_requests) × (n.1 + requested ≤ plan.monthly_interactions)

-- The update changes a row exactly if the found row fits.
module _ (user : User) (requested delta : ℕ) (key : Option Uuid) (rid : Option String) (plan : Plan)
    (u : MonthlyUsage) (period : Instant) (t : State)
    (found : find_first (is_row user.id period) t.monthly_usage ≡ some u) where
  many :
      fits plan requested delta u ≡ true
      → (count_where (λ v. v.id == u.id && fits plan requested delta v) t.monthly_usage == 0)
        ≡ false
  many f = ground (
    arith,
    count_where-pos (is_row user.id period) (λ v. v.id == u.id && fits plan requested delta v)
        t.monthly_usage u found (rw (==_refl u.id) f),
  )

  none_fits :
      UsageRows t
      → fits plan requested delta u ≡ false
      → (count_where (λ v. v.id == u.id && fits plan requested delta v) t.monthly_usage == 0) ≡ true
  none_fits h f = rw (
    count_where-key (λ v. v.id) (fits plan requested delta) t.monthly_usage u h.distinct
        (by_id user.id period t h u found),
    f,
  )

  settle_usage-fits :
      fits plan requested delta u ≡ true
      → settle_usage user requested delta key rid plan u t
        ≡ charge_usage user plan requested delta key rid u t
  unfolding settle_usage
  settle_usage-fits f = rw (many f)

  settle_usage_full :
      UsageRows t
      → fits plan requested delta u ≡ false
      → settle_usage user requested delta key rid plan u t ≡ quota_exhausted plan delta u t
  unfolding settle_usage
  settle_usage_full h f = rw (none_fits h f)

module _ (env : Env) (user : User) (requested delta : ℕ) (key : Option Uuid) (rid : Option String)
    (s : State) (plan : Plan) (has_plan : user_plan s user ≡ some plan) (h : UsageRows s) where
  abbrev period : Instant
  period = get_current_period_start env.calendar s.clock

  resolve_plan_lem : resolve_plan user s ≡ (ok plan, s)
  unfolding resolve_plan
  resolve_plan_lem = rw (has_plan, resolve_plan)

  -- Up to the test of the quota.
  reserve_usage-eq :
      (u : MonthlyUsage) (t : State)
      → requested ≤ plan.max_interactions_per_request
      → get_or_create_monthly_usage user.id period s ≡ (ok u, t)
      → reserve_usage env user requested delta key rid s
        ≡ settle_usage user requested delta key rid plan u t
  unfolding reserve_usage reserve_for_plan
  reserve_usage-eq u t small created =
      bind_ok (resolve_plan user) (reserve_for_plan env user requested delta key rid) s
        resolve_plan_lem
      ∙ fitting (ltb plan.max_interactions_per_request requested) (ground arith)
    where
      fitting :
          (over : Bool)
          → over ≡ false
          → (raise_if over (interaction_limit_exceeded plan requested)
                >> (get_or_create_monthly_usage user.id period
                    >>= settle_usage user requested delta key rid plan))
              s
            ≡ settle_usage user requested delta key rid plan u t
      fitting true e = cc
      fitting false e =
          bind_ok (get_or_create_monthly_usage user.id period)
            (settle_usage user requested delta key rid plan) s created

  -- For a user with a plan, usage rows with distinct and used ids, and a request within the plan's
  -- limit for one request: where the plan leaves room, the reservation succeeds, and the user's
  -- counts in the current period grow by what was asked, as the returned row says.
  pub reserve_usage_accepts :
      requested ≤ plan.max_interactions_per_request
      → Room plan requested delta (used user.id period s)
      → let (r, s') = reserve_usage env user requested delta key rid s in
        (u : MonthlyUsage) × (r ≡ ok u)
        × (counts_of (some u)
            ≡ ((used user.id period s).0 + delta, (used user.id period s).1 + requested))
        × (used user.id period s' ≡ counts_of (some u))
  reserve_usage_accepts small room =
      let (u, created, row) = get_or_create-HasRow user.id period s h in
      let t = (get_or_create_monthly_usage user.id period s).1 in
      let f : fits plan requested delta u ≡ true = ground (arith, row.counts) in
      let c = charge_usage_lem user plan requested delta key rid period t row.rows u row.found f in
      rw
        (reserve_usage-eq u t small (λ i. (created i, t))
          ∙ settle_usage-fits user requested delta key rid plan u period t row.found f)
        (_, c.0, cc (row.counts), c.1)

  -- Under the same conditions, where the plan leaves no room, the reservation is refused for the
  -- requests if they do not fit and else for the interactions, no user's counts change in any
  -- period, and the ids of the usage rows stay distinct and used.
  pub reserve_usage_refuses :
      requested ≤ plan.max_interactions_per_request
      → ¬ Room plan requested delta (used user.id period s)
      → let (r, s') = reserve_usage env user requested delta key rid s in
        (u : MonthlyUsage) × (counts_of (some u) ≡ used user.id period s)
        × (r
            ≡ err (
                if ltb plan.monthly_requests ((used user.id period s).0 + delta)
                then request_quota_exceeded plan u
                else interaction_quota_exceeded plan u))
        × ((v : Uuid) (q : Instant) → used v q s' ≡ used v q s)
        × UsageRows s'
  reserve_usage_refuses small full =
      let (u, created, row) = get_or_create-HasRow user.id period s h in
      let t = (get_or_create_monthly_usage user.id period s).1 in
      let f : fits plan requested delta u ≡ false =
        elim (Bool-cases (fits plan requested delta u)) [
          | inl yes_fits ↦ absurd (full (ground (arith, row.counts)))
          | inr no_fits ↦ no_fits
        ] in
      rw
        (reserve_usage-eq u t small (λ i. (created i, t))
          ∙ settle_usage_full user requested delta key rid plan u period t row.found row.rows f
          ∙ quota_exhausted_lem user plan requested delta key rid period t row.rows u row.found)
        (
          u,
          row.counts,
          ap
              (λ n. err (
                if ltb plan.monthly_requests (n.0 + delta)
                then request_quota_exceeded plan u
                else interaction_quota_exceeded plan u))
              row.counts,
          λ v q. row.others v q,
          record { distinct = row.rows.distinct; fresh = row.rows.fresh },
        )

  -- A request above the plan's limit for one request is refused, and nothing changes.
  pub reserve_usage_limit :
      plan.max_interactions_per_request < requested
      → reserve_usage env user requested delta key rid s
        ≡ (err (interaction_limit_exceeded plan requested), s)
  unfolding reserve_usage reserve_for_plan
  reserve_usage_limit large =
      bind_ok (resolve_plan user) (reserve_for_plan env user requested delta key rid) s
        resolve_plan_lem
      ∙ rw (lt→ltb _ _ large) refl

  -- No reservation touches the counts of another user or another period.
  pub reserve_usage-others :
      (v : Uuid) (q : Instant)
      → ((v == user.id) && (q == period)) ≡ false
      → used v q (reserve_usage env user requested delta key rid s).1 ≡ used v q s
  reserve_usage-others v q ne =
      let (u, created, row) = get_or_create-HasRow user.id period s h in
      let t = (get_or_create_monthly_usage user.id period s).1 in
      elim (Bool-cases (ltb plan.max_interactions_per_request requested)) [
        | inl large ↦ rw (reserve_usage_limit (ltb→lt _ _ large))
        | inr small ↦ elim (Bool-cases (fits plan requested delta u)) [
          | inl f ↦
              rw
                (reserve_usage-eq u t (ground arith) (λ i. (created i, t))
                  ∙ settle_usage-fits user requested delta key rid plan u period t row.found f)
                (charge_usage-others user plan requested delta key rid period t row.rows u row.found
                    f v q ne
                  ∙ row.others v q)
          | inr f ↦
              rw
                (reserve_usage-eq u t (ground arith) (λ i. (created i, t))
                  ∙ settle_usage_full user requested delta key rid plan u period t row.found
                      row.rows f
                  ∙ quota_exhausted_lem user plan requested delta key rid period t row.rows u
                      row.found)
                (row.others v q)
        ]
      ]

  -- What a reservation leaves in place, whether it succeeds or not.
  pub reserve_usage-keeps :
      let s' = (reserve_usage env user requested delta key rid s).1 in
      UsageRows s' × (s'.plans ≡ s.plans) × (s'.clock ≡ s.clock)
  reserve_usage-keeps =
      let (u, created, row) = get_or_create-HasRow user.id period s h in
      let t = (get_or_create_monthly_usage user.id period s).1 in
      elim (Bool-cases (ltb plan.max_interactions_per_request requested)) [
        | inl large ↦ rw (reserve_usage_limit (ltb→lt _ _ large)) (h, refl, refl)
        | inr small ↦ elim (Bool-cases (fits plan requested delta u)) [
          | inl f ↦
              let c =
                charge_usage_lem user plan requested delta key rid period t row.rows u row.found
                  f in
              rw
                (reserve_usage-eq u t (ground arith) (λ i. (created i, t))
                  ∙ settle_usage-fits user requested delta key rid plan u period t row.found f)
                (c.2, c.3 ∙ row.same_plans, c.4 ∙ row.same_clock)
          | inr f ↦
              rw
                (reserve_usage-eq u t (ground arith) (λ i. (created i, t))
                  ∙ settle_usage_full user requested delta key rid plan u period t row.found
                      row.rows f
                  ∙ quota_exhausted_lem user plan requested delta key rid period t row.rows u
                      row.found)
                (
                  record { distinct = row.rows.distinct; fresh = row.rows.fresh },
                  row.same_plans,
                  row.same_clock,
                )
        ]
      ]
