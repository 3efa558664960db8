-- ===== src/Usage/Refund.antt =====
-- What `refund_usage` of app/services/usage.py promises.
use behaviour_sim_api.Base.{
  ℕ, ◌+◌, ◌-◌, ◌≤◌, ◌<◌, ◌≡◌, ◌≢◌, ◌∙◌, ap, refl, inl, inr, arith, false, ◌&&◌, Option, none, some,
  String, ◌==◌, Bool-cases, Option-cases, find_first, find_first-update_where, find_first-holds,
  All-update_where, UniqueKeys-update_where, changed,
}
use behaviour_sim_api.Store.Rows.{Uuid, Instant, Plan, User}
use behaviour_sim_api.Store.State.{State}
use behaviour_sim_api.Store.Env.{Env}
use behaviour_sim_api.Usage.{
  is_row, user_plan, get_current_period_start, reserve_usage, refund_usage, subtract_usage,
}
use behaviour_sim_api.Usage.Counts.{counts_of, used, UsageRows}
use behaviour_sim_api.Usage.Quota.{Room, reserve_usage_accepts, reserve_usage-others}

module _ (env : Env) (user : Option User) (id : Uuid) (requested delta : ℕ) (s : State) where
  abbrev this_period : Instant
  this_period = get_current_period_start env.calendar s.clock

  abbrev refunded : State
  refunded = (refund_usage env user (some id) requested delta s).1

  -- A refund lowers the user's counts of the current period by what is given back, to no less than
  -- zero, and changes no other user's counts and no other period's.
  pub refund_usage_lem :
      (used id this_period refunded
        ≡ ((used id this_period s).0 - delta, (used id this_period s).1 - requested))
      × ((v : Uuid) (q : Instant)
          → ((v == id) && (q == this_period)) ≡ false
          → used v q refunded ≡ used v q s)
  unfolding refund_usage
  refund_usage_lem = (
    rw
        (find_first-update_where (is_row id this_period) (is_row id this_period)
          (subtract_usage requested delta s.clock) s.monthly_usage (λ a _. refl))
        own,
    λ v q ne.
        rw
          (find_first-update_where (is_row v q) (is_row id this_period)
            (subtract_usage requested delta s.clock) s.monthly_usage (λ a _. refl))
          (others v q ne),
  )
    where
      own :
          counts_of (
            changed
              (is_row id this_period)
              (subtract_usage requested delta s.clock)
              (find_first (is_row id this_period) s.monthly_usage))
          ≡ ((used id this_period s).0 - delta, (used id this_period s).1 - requested)
      own = elim (Option-cases (find_first (is_row id this_period) s.monthly_usage)) [
        | inl e ↦ rw e (ground arith)
        | inr (u, e) ↦
            rw (e, find_first-holds (is_row id this_period) s.monthly_usage u e) (ground arith)
      ]

      others :
          (v : Uuid) (q : Instant)
          → ((v == id) && (q == this_period)) ≡ false
          → counts_of (
              changed
                (is_row id this_period)
                (subtract_usage requested delta s.clock)
                (find_first (is_row v q) s.monthly_usage))
            ≡ used v q s
      others v q ne = elim (Option-cases (find_first (is_row v q) s.monthly_usage)) [
        | inl e ↦ rw e
        | inr (u, e) ↦
            let other : is_row id this_period u ≡ false =
              ground (arith, find_first-holds (is_row v q) s.monthly_usage u e) in
            rw (e, other)
      ]

  pub refund_usage-plans : refunded.plans ≡ s.plans
  unfolding refund_usage
  refund_usage-plans = refl

  pub refund_usage-UsageRows : UsageRows s → UsageRows refunded
  unfolding refund_usage
  refund_usage-UsageRows h = record {
    distinct =
        UniqueKeys-update_where (λ u. u.id) (is_row id this_period)
          (subtract_usage requested delta s.clock) s.monthly_usage (λ a _. refl) h.distinct;
    fresh =
        All-update_where (λ u. u.id < s.next_uuid) (is_row id this_period)
          (subtract_usage requested delta s.clock) s.monthly_usage (λ a _ k. k) h.fresh;
  }

module _ (env : Env) (user : User) (requested delta : ℕ) (key : Option Uuid) (rid : Option String)
    (s : State) (plan : Plan) (has_plan : user_plan s user ≡ some plan) (h : UsageRows s)
    (small : requested ≤ plan.max_interactions_per_request) (later : Instant) where
  abbrev reserved_at : Instant
  reserved_at = get_current_period_start env.calendar s.clock

  -- The state when the refund is made.
  abbrev reserved : State
  reserved = record ((reserve_usage env user requested delta key rid s).1) { clock = later }

  abbrev returned : State
  returned = (refund_usage env none (some user.id) requested delta reserved).1

  own_restored :
      Room plan requested delta (used user.id reserved_at s)
      → get_current_period_start env.calendar later ≡ reserved_at
      → used user.id reserved_at returned ≡ used user.id reserved_at s
  own_restored room same =
      let (u, _, counts, kept) =
        reserve_usage_accepts env user requested delta key rid s plan has_plan h small room in
      let (own, _) = refund_usage_lem env none user.id requested delta reserved in
      rw same at own ∙ ap (λ n. (n.0 - delta, n.1 - requested)) (kept ∙ counts) ∙ ground arith

  -- For a user with a plan and a request within its limit for one request, which the plan leaves room
  -- for: a refund in the period of the reservation restores every user's counts of every period.
  pub refund_usage-reserve_usage :
      Room plan requested delta (used user.id reserved_at s)
      → get_current_period_start env.calendar later ≡ reserved_at
      → (v : Uuid) (q : Instant) → used v q returned ≡ used v q s
  refund_usage-reserve_usage room same v q =
      elim (Bool-cases ((v == user.id) && (q == reserved_at))) [
        | inl mine ↦
            let a : v ≡ user.id = ground arith in
            let b : q ≡ reserved_at = ground arith in rw (a, b) (own_restored room same)
        | inr other ↦
            (refund_usage_lem env none user.id requested delta reserved).1 v q (rw same other)
            ∙ reserve_usage-others env user requested delta key rid s plan has_plan h v q other
      ]

  -- Under the same conditions, a refund in another period than the reservation leaves it charged to
  -- its own period.
  pub refund_usage_next_period :
      Room plan requested delta (used user.id reserved_at s)
      → get_current_period_start env.calendar later ≢ reserved_at
      → used user.id reserved_at returned
        ≡ ((used user.id reserved_at s).0 + delta, (used user.id reserved_at s).1 + requested)
  refund_usage_next_period room other =
      let (u, _, counts, kept) =
        reserve_usage_accepts env user requested delta key rid s plan has_plan h small room in
      (refund_usage_lem env none user.id requested delta reserved).1 user.id reserved_at
        (ground arith)
      ∙ kept
      ∙ counts
