-- ===== src/Simulations/Admission.antt =====
-- The reservation and the creation of a job that `run_simulation` of app/api/v1/simulations.py begins
-- with.
use behaviour_sim_api.Base.{
  ℕ, ◌+◌, ◌≤◌, ◌≡◌, ◌⊎◌, ◌∙◌, ap, refl, inl, inr, arith, true, false, ◌&&◌, Option, none, some, [],
  ◌∷◌, ◌++◌, ◌==◌, Bool-cases, leb,
}
use behaviour_sim_api.Store.Rows.{Uuid, Instant, Plan, User, Simulation, pending, MonthlyUsage}
use behaviour_sim_api.Store.State.{State}
use behaviour_sim_api.Store.Env.{Env, create_job}
use behaviour_sim_api.Store.Action.{
  ok, err, Error, crash, catch, bind_ok, bind_err, catch_ok, catch_err,
}
use behaviour_sim_api.Usage.{get_current_period_start, user_plan, reserve_usage}
use behaviour_sim_api.Usage.Counts.{used, UsageRows}
use behaviour_sim_api.Usage.Quota.{
  Room, reserve_usage_accepts, reserve_usage_refuses, reserve_usage-others, reserve_usage_limit,
}
use behaviour_sim_api.Jobs.{
  RunRequest, create_simulation_job, new_job, unless_lost, simulation_persistence_failed,
}
use behaviour_sim_api.Jobs.Reservation.{reserve_usage-jobs}
use behaviour_sim_api.Simulations.Runs.{reserve_and_create, fail_create}

module _ (env : Env) (user : User) (r : RunRequest) (t : State) where
  abbrev created : Simulation
  created = new_job env t.next_uuid user r t.clock

  abbrev not_created : State
  not_created = record t { next_uuid = t.next_uuid + 1 }

  create_ok :
      env.persists create_job ≡ true
      → create_simulation_job env user r t
        ≡ (ok created, record not_created { simulations = t.simulations ++ created ∷ [] })
  unfolding create_simulation_job
  create_ok p = ground (arith, p)

  create_err :
      env.persists create_job ≡ false
      → create_simulation_job env user r t ≡ (err simulation_persistence_failed, not_created)
  unfolding create_simulation_job
  create_err p = ground (arith, p)

module _ (env : Env) (user : User) (r : RunRequest) (key : Option Uuid) (s : State) (plan : Plan)
    (has_plan : user_plan s user ≡ some plan) (h : UsageRows s) where
  abbrev pub month : Instant
  month = get_current_period_start env.calendar s.clock

  abbrev pub n : ℕ
  n = r.num_interactions

  -- What the plan must say for a run to be charged.
  abbrev pub Admits : Type 0
  Admits = (n ≤ plan.max_interactions_per_request) × Room plan n 1 (used user.id month s)

  -- The user alone is charged for the run, in this month.
  abbrev pub Counted : State → Type 0
  Counted s' =
      (used user.id month s' ≡ ((used user.id month s).0 + 1, (used user.id month s).1 + n))
      × ((v : Uuid) (q : Instant)
          → ((v == user.id) && (q == month)) ≡ false
          → used v q s' ≡ used v q s)

  -- The new job is stored as pending, and its user alone is charged for it.
  abbrev pub Charged : Simulation → State → Type 0
  Charged j s' =
      (j.status ≡ pending)
      × (j.user_id ≡ user.id)
      × (j.num_interactions ≡ n)
      × (s'.simulations ≡ s.simulations ++ j ∷ [])
      × Counted s'

  -- No job is stored and nobody is charged.
  abbrev pub Untouched : State → Type 0
  Untouched s' =
      (s'.simulations ≡ s.simulations) × ((v : Uuid) (q : Instant) → used v q s' ≡ used v q s)

  abbrev reserving : State
  reserving = (reserve_usage env user n 1 key none s).1

  reserved :
      Admits
      → ((u : MonthlyUsage) × ((reserve_usage env user n 1 key none s).0 ≡ ok u))
        × (reserving.simulations ≡ s.simulations)
        × Counted reserving
  reserved (small, room) =
      let (u, r_ok, counts, kept) =
        reserve_usage_accepts env user n 1 key none s plan has_plan h small room in
      let (same, _) = reserve_usage-jobs env user n 1 key none s in
      (
        (u, r_ok),
        same,
        (kept ∙ counts, reserve_usage-others env user n 1 key none s plan has_plan h),
      )

  pub reserve_and_create-ok :
      Admits
      → env.persists create_job ≡ true
      → (j : Simulation) × (s' : State) × (reserve_and_create env user r key s ≡ (ok j, s'))
        × Charged j s'
  unfolding reserve_and_create new_job
  reserve_and_create-ok admits stored =
      let m = reserve_usage env user n 1 key none in
      let ((u, r_ok), same, counted) = reserved admits in
      let c = create_simulation_job env user r in
      (
        _,
        _,
        bind_ok m (λ _. catch c (λ _. fail_create env user r key)) s (λ i. (r_ok i, reserving))
            ∙ catch_ok c (λ _. fail_create env user r key) reserving
                (create_ok env user r reserving stored),
        (refl, refl, refl, ap (λ js. js ++ created env user r reserving ∷ []) same, counted),
      )

  -- Where the database refuses the job, the refund raises: the charge stays.
  pub reserve_and_create_lost :
      Admits
      → env.persists create_job ≡ false
      → (s' : State) × (reserve_and_create env user r key s ≡ (err crash, s'))
        × (s'.simulations ≡ s.simulations)
        × Counted s'
  unfolding reserve_and_create fail_create unless_lost
  reserve_and_create_lost admits lost =
      let m = reserve_usage env user n 1 key none in
      let ((u, r_ok), same, counted) = reserved admits in
      let c = create_simulation_job env user r in
      let t = not_created env user r reserving in
      let raises : fail_create env user r key t ≡ (err crash, t) = rw (lost, fail_create) refl in
      (
        t,
        bind_ok m (λ _. catch c (λ _. fail_create env user r key)) s (λ i. (r_ok i, reserving))
            ∙ catch_err c (λ _. fail_create env user r key) reserving
                (create_err env user r reserving lost)
            ∙ raises,
        same,
        counted,
      )

  abbrev pub Refused : Type 0
  Refused =
      (e : Error) × (s' : State) × (reserve_and_create env user r key s ≡ (err e, s'))
      × Untouched s'

  -- A refused reservation.
  pub reserve_and_create-err : ¬ Admits → Refused
  unfolding reserve_and_create
  reserve_and_create-err refused =
      let m = reserve_usage env user n 1 key none in
      let k = catch (create_simulation_job env user r) (λ _. fail_create env user r key) in
      let (same, _) = reserve_usage-jobs env user n 1 key none s in
      elim (Bool-cases (leb n plan.max_interactions_per_request)) [
        | inr large ↦ (
          _,
          s,
          bind_err m (λ _. k) s
              (reserve_usage_limit env user n 1 key none s plan has_plan h (ground arith)),
          (refl, λ v q. refl),
        )
        | inl small ↦
            elim (Bool-cases (
              leb ((used user.id month s).0 + 1) plan.monthly_requests
              && leb ((used user.id month s).1 + n) plan.monthly_interactions)) [
                | inr full ↦
                    let (_, _, r_err, kept, _) =
                      reserve_usage_refuses env user n 1 key none s plan has_plan h (ground arith)
                        (λ room. ground arith) in
                    (_, reserving, bind_err m (λ _. k) s (λ i. (r_err i, reserving)), (same, kept))
                | inl room ↦ absurd (refused (ground arith, (ground arith, ground arith)))
              ]
      ]

  pub Admits-cases : Admits ⊎ ¬ Admits
  Admits-cases =
      elim (Bool-cases (
        leb n plan.max_interactions_per_request
        && leb ((used user.id month s).0 + 1) plan.monthly_requests
        && leb ((used user.id month s).1 + n) plan.monthly_interactions)) [
          | inl all ↦ inl (ground arith, (ground arith, ground arith))
          | inr any ↦ inr (λ (small, (requests, interactions)). ground arith)
        ]
