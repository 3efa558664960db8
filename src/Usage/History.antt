-- ===== src/Usage/History.antt =====
-- Any history of reservations and refunds keeps every user within the plan.
use behaviour_sim_api.Base.{
  ℕ, ◌+◌, ◌≤◌, ◌≡◌, ◌⊎◌, refl, inl, inr, arith, ◌&&◌, none, some, List, [], ◌∷◌, ◌==◌, Bool-cases,
  All, ltb, leb, ltb→lt, find_first,
}
use behaviour_sim_api.Store.Rows.{Uuid, Instant, Plan, User}
use behaviour_sim_api.Store.State.{State}
use behaviour_sim_api.Store.Env.{Env}
use behaviour_sim_api.Usage.{user_plan, get_current_period_start, reserve_usage, refund_usage}
use behaviour_sim_api.Usage.Counts.{used, UsageRows}
use behaviour_sim_api.Usage.Quota.{
  Room, reserve_usage_accepts, reserve_usage_refuses, reserve_usage_limit, reserve_usage-others,
  reserve_usage-keeps,
}
use behaviour_sim_api.Usage.Refund.{refund_usage_lem, refund_usage-plans, refund_usage-UsageRows}

-- Requests of any users, refunds, and the passage of time, in any order.
pub data Call : Type 0 where
  reserve : User → ℕ → ℕ → Call
  refund : Uuid → ℕ → ℕ → Call
  wait : ℕ → Call

unfoldable pub step : Env → State → Call → State
step env s (reserve user requested delta) = (reserve_usage env user requested delta none none s).1
step env s (refund id requested delta) = (refund_usage env none (some id) requested delta s).1
step env s (wait t) = record s { clock = s.clock + t }

unfoldable pub run : Env → State → List Call → State
run env s [] = s
run env s (c ∷ cs) = run env (step env s c) cs

-- Who reserves has a plan.
abbrev pub Planned : List Plan → Call → Type 0
Planned plans (reserve user requested delta) =
    (p : Plan) × (find_first (λ q. q.id == user.plan_id) plans ≡ some p)
Planned plans (refund id requested delta) = Unit
Planned plans (wait t) = Unit

abbrev pub Within : Plan → ℕ × ℕ → Type 0
Within plan n = (n.0 ≤ plan.monthly_requests) × (n.1 ≤ plan.monthly_interactions)

module _ (env : Env) (id : Uuid) (plan : Plan) (q : Instant) where
  -- Every account that reserves under this id has this plan.
  abbrev pub SamePlan : List Plan → Call → Type 0
  SamePlan plans (reserve user requested delta) =
      user.id ≡ id → find_first (λ p. p.id == user.plan_id) plans ≡ some plan
  SamePlan plans (refund i requested delta) = Unit
  SamePlan plans (wait t) = Unit

  Room-cases :
      (requested delta : ℕ) (n : ℕ × ℕ)
      → Room plan requested delta n ⊎ (¬ Room plan requested delta n)
  Room-cases requested delta n =
      elim (Bool-cases (
        leb (n.0 + delta) plan.monthly_requests
        && leb (n.1 + requested) plan.monthly_interactions)) [
          | inl e ↦ inl (ground arith)
          | inr e ↦ inr (λ r. ground arith)
        ]

  reserve-Within :
      (user : User) (requested delta : ℕ) (s : State)
      → user.id ≡ id
      → user_plan s user ≡ some plan
      → UsageRows s
      → Within plan (used id q s)
      → Within plan (used id q (reserve_usage env user requested delta none none s).1)
  reserve-Within user requested delta s e has_plan h w =
      let now = get_current_period_start env.calendar s.clock in
      elim (Bool-cases ((id == user.id) && (q == now))) [
        | inr other ↦
            rw
              (reserve_usage-others env user requested delta none none s plan has_plan h id q other)
              w
        | inl mine ↦
            let a : id ≡ user.id = ground arith in
            let b : q ≡ now = ground arith in
            let w' : Within plan (used user.id now s) = rw (a, b) at w in
            elim (Bool-cases (ltb plan.max_interactions_per_request requested)) [
              | inl large ↦
                  rw
                    (reserve_usage_limit env user requested delta none none s plan has_plan h
                      (ltb→lt _ _ large))
                    w
              | inr small ↦ elim (Room-cases requested delta (used user.id now s)) [
                | inl room ↦
                    let (u, _, counts, kept) =
                      reserve_usage_accepts env user requested delta none none s plan has_plan h
                        (ground arith) room in
                    rw (a, b, kept, counts) room
                | inr full ↦
                    let (u, _, _, kept, _) =
                      reserve_usage_refuses env user requested delta none none s plan has_plan h
                        (ground arith) full in
                    rw (kept id q) w
              ]
            ]
      ]

  step-Within :
      (c : Call) (s : State)
      → Planned s.plans c
      → SamePlan s.plans c
      → UsageRows s
      → Within plan (used id q s)
      → let s' = step env s c in UsageRows s' × Within plan (used id q s') × (s'.plans ≡ s.plans)
  unfolding step
  step-Within (reserve user requested delta) s (p, has) same h w =
      let k = reserve_usage-keeps env user requested delta none none s p has h in
      (
        k.0,
        elim (Bool-cases (id == user.id)) [
          | inl mine ↦
              let e : user.id ≡ id = ground arith in
              reserve-Within user requested delta s e (same e) h w
          | inr other ↦
              rw (reserve_usage-others env user requested delta none none s p has h id q (rw other))
                w
        ],
        k.1,
      )
  step-Within (refund i requested delta) s _ _ h w =
      let (own, others) = refund_usage_lem env none i requested delta s in
      let now = get_current_period_start env.calendar s.clock in
      (
        refund_usage-UsageRows env none i requested delta s h,
        elim (Bool-cases ((id == i) && (q == now))) [
          | inr other ↦ rw (others id q other) w
          | inl mine ↦
              let a : id ≡ i = ground arith in
              let b : q ≡ now = ground arith in
              rw (a, b, own) (let w' : Within plan (used i now s) = rw (a, b) at w in omega arith)
        ],
        refund_usage-plans env none i requested delta s,
      )
  step-Within (wait t) s _ _ h w = (record { distinct = h.distinct; fresh = h.fresh }, w, refl)

  -- However reservations, refunds and waits are interleaved, the counts of a user in a period stay
  -- within the plan, if they are at the start, the ids of the usage rows are distinct and used, who
  -- reserves has a plan, and reservations for the user are under this plan.
  pub run-Within :
      (cs : List Call) (s : State)
      → All (Planned s.plans) cs
      → All (SamePlan s.plans) cs
      → UsageRows s
      → Within plan (used id q s)
      → Within plan (used id q (run env s cs))
  unfolding run
  run-Within [] s planned same h w = w
  run-Within (c ∷ cs) s planned same h w =
      let (h', w', kept) = step-Within c s planned.0 same.0 h w in
      run-Within cs (step env s c) (rw kept planned.1) (rw kept same.1) h' w'
