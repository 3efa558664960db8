-- ===== src/Jobs/Reservation.antt =====
-- The first two steps of `execute_simulation_job` of app/services/simulation_job.py: the start of the
-- job and the reservation of its quota.
use behaviour_sim_api.Base.{
  ℕ, ◌≡◌, ◌⊎◌, ◌∙◌, ap, refl, inl, inr, arith, Bool, true, false, Option, none, some, String, ◌==◌,
  find_first, Bool-cases,
}
use behaviour_sim_api.Dict.{Eq-Text}
use behaviour_sim_api.Store.Rows.{Uuid, pending, running, failed, User, Simulation}
use behaviour_sim_api.Store.State.{State}
use behaviour_sim_api.Store.Env.{Env, fail_job}
use behaviour_sim_api.Store.Action.{
  ok, err, Error, crash, raise, pure, Result-cases, ◌>>◌, bind_ok, bind_err, catch_ok, catch_err,
}
use behaviour_sim_api.Usage.{
  reserve_usage, resolve_plan, reserve_for_plan, settle_usage, charge_usage, quota_exhausted,
  get_or_create_monthly_usage, add_event,
}
use behaviour_sim_api.Jobs.{
  save, get_job, Outcome, no_outcome, transition_job_status, commit_transition, apply_transition,
  fail_quota, reserve_quota_for, failure, plain,
}
use behaviour_sim_api.Jobs.Lifecycle.{get_job-save, apply_transition_lem}
use behaviour_sim_api.Jobs.Steps.{running_to, running_lost}

pub get_job_saved :
    (k : Simulation) (id : Uuid) (s t : State) {j : Simulation}
    → t.simulations ≡ s.simulations
    → get_job id s ≡ some j
    → j.id ≡ id
    → k.id ≡ id
    → get_job id (save k t) ≡ some k
get_job_saved k id s t same e ji ki = rw (get_job-save id k t, same, e) (ground arith)

pub reserve_usage-jobs :
    (env : Env) (user : User) (n delta : ℕ) (key : Option Uuid) (rid : Option String) (s : State)
    → let s' = (reserve_usage env user n delta key rid s).1 in
      (s'.simulations ≡ s.simulations) × (s'.clock ≡ s.clock)
unfolding reserve_usage resolve_plan reserve_for_plan settle_usage charge_usage quota_exhausted
    get_or_create_monthly_usage add_event
reserve_usage-jobs env user n delta key rid s = (ground arith, ground arith)

module _ (env : Env) (user : User) (key : Option Uuid) where
  abbrev pub exhausted : Outcome
  exhausted = failure "quota_exceeded" (plain "Monthly request or interaction quota exhausted.")

  pub fail_quota_lem :
      (job : Simulation) (e : Error) (s : State)
      → job.status ≡ running
      → env.persists fail_job ≡ true
      → fail_quota env job e s ≡ (err e, save (apply_transition s.clock failed exhausted job) s)
  unfolding fail_quota
  fail_quota_lem job e s st kept =
      bind_ok (transition_job_status (env.persists fail_job) job failed exhausted) (λ _. raise e) s
        (running_to env job user key (env.persists fail_job) failed exhausted s st (inr refl) kept)

  pub fail_quota_lost :
      (job : Simulation) (e : Error) (s : State)
      → job.status ≡ running
      → env.persists fail_job ≡ false
      → fail_quota env job e s ≡ (err crash, s)
  unfolding fail_quota
  fail_quota_lost job e s st lost =
      bind_err (transition_job_status (env.persists fail_job) job failed exhausted) (λ _. raise e) s
        (rw lost (running_lost env job user key failed exhausted s st (inr refl)))

  pub starts :
      (job : Simulation) (s : State)
      → job.status ≡ pending
      → transition_job_status true job running no_outcome s ≡ (
        ok (apply_transition s.clock running no_outcome job),
        save (apply_transition s.clock running no_outcome job) s,
      )
  unfolding transition_job_status commit_transition
  starts job s st = ground arith

module _ (env : Env) (user : User) (key : Option Uuid) where
  -- Step 2 leaves the job as it runs and goes on, or the job has failed and an error is raised, or the
  -- database has refused the failed state.
  pub reserve_quota_for_lem :
      (job : Simulation) (reserve_quota : Bool) (s : State)
      → get_job job.id s ≡ some job
      → job.status ≡ running
      → let m = reserve_quota_for env job user key reserve_quota in
        ((m s).0 ≡ ok tt) × (get_job job.id (m s).1 ≡ some job)
        ⊎ (e : Error) × ((m s).0 ≡ err e)
          × (j : Simulation) × (get_job job.id (m s).1 ≡ some j)
          × ((j.status ≡ failed)
              ⊎ (j.status ≡ running) × (e ≡ crash) × (env.persists fail_job ≡ false))
  unfolding reserve_quota_for
  reserve_quota_for_lem job false s stored st = inl (refl, stored)
  reserve_quota_for_lem job true s stored st =
      let m = reserve_usage env user job.num_interactions 1 key none in
      let (same, clock) = reserve_usage-jobs env user job.num_interactions 1 key none s in
      let t = (m s).1 in
      elim (Result-cases (m s).0) [
        | inl (u, e) ↦
            rw
              (catch_ok (m >> pure tt) (fail_quota env job) s
                (bind_ok m (λ _. pure tt) s (λ i. (e i, t))))
              (inl (refl, ap (find_first (λ j. j.id == job.id)) same ∙ stored))
        | inr (x, e) ↦
            let o = exhausted env user key in
            let k = apply_transition t.clock failed o job in
            let (st', ids) = apply_transition_lem t.clock failed o job in
            let refused =
              catch_err (m >> pure tt) (fail_quota env job) s
                (bind_err m (λ _. pure tt) s (λ i. (e i, t))) in
            elim (Bool-cases (env.persists fail_job)) [
              | inl kept ↦
                  rw (refused ∙ fail_quota_lem env user key job x t st kept)
                    (inr (x, refl, k, get_job_saved k job.id s t same stored refl ids, inl st'))
              | inr lost ↦ rw (refused ∙ fail_quota_lost env user key job x t st lost) (
                  inr (
                    crash,
                    refl,
                    job,
                    ap (find_first (λ j. j.id == job.id)) same ∙ stored,
                    inr (st, refl, lost),
                  ))
            ]
      ]
