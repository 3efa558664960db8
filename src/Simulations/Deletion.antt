-- ===== src/Simulations/Deletion.antt =====
-- What `delete_simulation` of app/api/v1/simulations.py does on every branch.
use behaviour_sim_api.Base.{
  ℕ, ◌-◌, ◌≡◌, ◌≢◌, ◌⊎◌, ◌∙◌, ap, refl, inl, inr, arith, ◌&&◌, none, some, String, ◌==◌,
  if◌then◌else◌, Bool-cases, Option-cases, find_first, find_first-holds, find_first-other,
  find_first-key, find_first-delete_where, find_first-delete_other,
}
use behaviour_sim_api.Store.Rows.{Uuid, Instant, Simulation, pending, running}
use behaviour_sim_api.Store.State.{State}
use behaviour_sim_api.Store.Env.{Env}
use behaviour_sim_api.Store.Action.{Result, ok, err, modify, bind_ok, bind_err}
use behaviour_sim_api.Usage.{get_current_period_start, refund_usage, record_usage_result, add_event}
use behaviour_sim_api.Usage.Counts.{used}
use behaviour_sim_api.Usage.Refund.{refund_usage_lem}
use behaviour_sim_api.Jobs.{get_job, status_eq}
use behaviour_sim_api.Jobs.Lifecycle.{UniqueJobs}
use behaviour_sim_api.Simulations.Responses.{Principal}
use behaviour_sim_api.Simulations.Access.{
  owned_by, find_owned, delete_simulation, delete_found, refund_pending, remove_job,
  simulation_not_found, cannot_delete_running_simulation,
}

module _ (env : Env) (principal : Principal) (simulation_id : String) (s : State) where
  abbrev uid : Uuid
  uid = principal.user.id

  abbrev deleted : Result (Unit {0}) × State
  deleted = delete_simulation env principal simulation_id s

  abbrev month : Instant
  month = get_current_period_start env.calendar s.clock

  -- The id in the path names a run of the caller.
  abbrev pub Owns : Simulation → Type 0
  Owns sim =
      (env.uuid_of simulation_id ≡ some sim.id)
      × (sim.user_id ≡ uid)
      × (get_job sim.id s ≡ some sim)

  abbrev pub Missing : Type 0
  Missing = (sim : Simulation) → ¬ Owns sim

  found-cases :
      UniqueJobs s
      → ((sim : Simulation) × Owns sim × (find_owned env uid simulation_id s ≡ (ok sim, s)))
        ⊎ (Missing
            × (find_owned env uid simulation_id s ≡ (err (simulation_not_found simulation_id), s)))
  unfolding find_owned
  found-cases distinct = elim (Option-cases (env.uuid_of simulation_id)) [
    | inl e ↦ inr (λ sim (named, _, _). ground (arith, e, named), ground (arith, e))
    | inr (id, e) ↦ elim (Option-cases (find_first (owned_by uid id) s.simulations)) [
      | inl f ↦ inr (
        λ sim (named, mine, stored).
            find_first-other (λ j. j.id == sim.id) (owned_by uid id) s.simulations sim stored
              (ground (arith, e, named, mine)) f,
        ground (arith, e, f),
      )
      | inr (sim, f) ↦
          let holds = find_first-holds (owned_by uid id) s.simulations sim f in
          inl (
            sim,
            (
              ground (arith, e, holds),
              ground (arith, holds),
              find_first-key (λ j. j.id) (owned_by uid id) s.simulations sim distinct f,
            ),
            ground (arith, e, f),
          )
    ]
  ]

  -- The run is gone, and every other one is as it was.
  abbrev pub Gone : Uuid → State → Type 0
  Gone id s' = (get_job id s' ≡ none) × ((i : Uuid) → i ≢ id → get_job i s' ≡ get_job i s)

  -- The usage where a run's interactions and a request are taken off the caller's counts of this month.
  abbrev pub usage_less : Simulation → Uuid → Instant → ℕ × ℕ
  usage_less sim v q =
      if v == uid && q == month
      then ((used v q s).0 - 1, (used v q s).1 - sim.num_interactions)
      else used v q s

  -- The deletion of a pending run lowers the counts of the current period.
  abbrev pub usage_after : Simulation → Uuid → Instant → ℕ × ℕ
  usage_after sim v q = if status_eq sim.status pending then usage_less sim v q else used v q s

  remove_job-Gone :
      (id : Uuid) (t : State) → t.simulations ≡ s.simulations → Gone id (remove_job id t)
  remove_job-Gone id t same = (
    find_first-delete_where (λ j. j.id == id) t.simulations,
    λ i d.
        find_first-delete_other (λ j. j.id == i) (λ j. j.id == id) t.simulations
          (λ j e. ground (arith, d, e))
        ∙ ap (find_first (λ j. j.id == i)) same,
  )

  refunded_lem :
      (sim : Simulation) (v : Uuid) (q : Instant)
      → sim.user_id ≡ uid
      → used v q (refund_usage env none (some sim.user_id) sim.num_interactions 1 s).1
        ≡ usage_less sim v q
  refunded_lem sim v q mine =
      let (own, others) = refund_usage_lem env none sim.user_id sim.num_interactions 1 s in
      elim (Bool-cases (v == uid && q == month)) [
        | inr other ↦ others v q (rw mine other) ∙ rw other refl
        | inl same ↦
            let a : v ≡ sim.user_id = ground (arith, same, mine) in
            let b : q ≡ month = ground arith in rw same (rw (a, b) own)
      ]

  refund_pending_lem :
      (sim : Simulation)
      → sim.user_id ≡ uid
      → let (r, t) = refund_pending env principal sim s in
        (r ≡ ok tt)
        × (t.simulations ≡ s.simulations)
        × ((v : Uuid) (q : Instant) → used v q t ≡ usage_after sim v q)
  unfolding refund_pending refund_usage record_usage_result add_event
  refund_pending_lem sim mine = elim (Bool-cases (status_eq sim.status pending)) [
    | inr other ↦ rw (other) (refl, refl, λ v q. refl)
    | inl waits ↦ rw waits (refl, refl, λ v q. refunded_lem sim v q mine)
  ]

  -- Where the runs' ids are distinct: an id that names no run of the caller is answered with 404 and
  -- nothing changes; so is, with 409, one of a running run. Any other run of the caller is gone
  -- afterwards, and every other run is as it was. If the run was pending, its interactions and one
  -- request are taken off its user's counts of the current period, down to zero at most, whichever
  -- period it was reserved in; no other counts change.
  pub delete_simulation_lem :
      UniqueJobs s
      → (Missing × (deleted ≡ (err (simulation_not_found simulation_id), s)))
        ⊎ ((sim : Simulation) × Owns sim
            × (((sim.status ≡ running)
                  × (deleted ≡ (err (cannot_delete_running_simulation simulation_id running), s)))
                ⊎ (sim.status ≢ running)
                  × (deleted.0 ≡ ok tt)
                  × Gone sim.id deleted.1
                  × ((v : Uuid) (q : Instant) → used v q deleted.1 ≡ usage_after sim v q)))
  unfolding delete_simulation delete_found
  delete_simulation_lem distinct = elim (found-cases distinct) [
    | inr (missing, e) ↦ inl (
      missing,
      bind_err (find_owned env uid simulation_id) (delete_found env principal simulation_id) s e,
    )
    | inl (sim, owns, e) ↦
        let begins =
          bind_ok (find_owned env uid simulation_id) (delete_found env principal simulation_id) s
            e in
        elim (Bool-cases (status_eq sim.status running)) [
          | inl runs ↦
              let st : sim.status ≡ running = ground arith in
              inr (sim, owns, inl (st, begins ∙ rw st refl))
          | inr rests ↦
              let (r, same, usage) = refund_pending_lem sim owns.1 in
              let m = refund_pending env principal sim in
              let removes = λ (_ : Unit {0}). modify (remove_job sim.id) in
              let ends : deleted ≡ (ok tt, remove_job sim.id (m s).1) =
                begins ∙ rw rests (bind_ok m removes s (λ i. (r i, (m s).1))) in
              rw ends (
                inr (
                  sim,
                  owns,
                  inr (
                    λ st. ground (arith, st, rests),
                    refl,
                    remove_job-Gone sim.id (m s).1 same,
                    usage,
                  ),
                ))
        ]
  ]
