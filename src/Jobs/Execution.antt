-- ===== src/Jobs/Execution.antt =====
-- How `execute_simulation_job` of app/services/simulation_job.py ends a job that it starts.
use behaviour_sim_api.Base.{
  ℕ, ◌≡◌, ◌⊎◌, ◌∙◌, ap, sym, refl, inl, inr, Bool, true, false, Option, none, some, ◌==◌,
  find_first, Bool-cases,
}
use behaviour_sim_api.Dict.{Eq-Text}
use behaviour_sim_api.Store.Rows.{
  Uuid, Records, pending, running, completed, failed, User, Simulation,
}
use behaviour_sim_api.Store.State.{State}
use behaviour_sim_api.Store.Env.{Env, complete_job, fail_job}
use behaviour_sim_api.Store.Action.{
  Action, ok, err, Result, Error, crash, pure, catch, Result-cases, ◌>>◌, bind_ok, bind_err,
  catch_ok, catch_err,
}
use behaviour_sim_api.Usage.{record_usage_result}
use behaviour_sim_api.Presets.Execute.{execute_simulation}
use behaviour_sim_api.Jobs.{
  save, get_job, Outcome, no_outcome, transition_job_status, apply_transition, fail_run,
  reserve_quota_for, fail_persist, finish_job, store_result, engine_failure, execute_simulation_job,
}
use behaviour_sim_api.Jobs.Lifecycle.{apply_transition_lem}
use behaviour_sim_api.Jobs.Steps.{
  execute_simulation-SameRows, running_to, running_lost, refund_state, refund_state-jobs,
  fail_run_lem, fail_run_lost, fail_persist_lem,
}
use behaviour_sim_api.Jobs.Reservation.{get_job_saved, starts, reserve_quota_for_lem}

-- How the run of a job may end: with the row completed, which is returned; with the row failed and an
-- error; or with the row running and an unhandled exception, after the database has refused a commit.
abbrev pub Finished : Env → Uuid → Result Simulation × State → Type 0
Finished env id (r, s') =
    (j : Simulation) × (get_job id s' ≡ some j)
    × ((j.status ≡ completed) × (r ≡ ok j)
        ⊎ (j.status ≡ failed) × ((e : Error) × (r ≡ err e))
        ⊎ (j.status ≡ running)
          × (r ≡ err crash)
          × ((env.persists complete_job ≡ false) ⊎ (env.persists fail_job ≡ false)))

abbrev pub outcome_of : Records → ℕ → Outcome
outcome_of records ms = record no_outcome { result_data = some records; compute_ms = some ms }

module _ (env : Env) (job : Simulation) (user : User) (key : Option Uuid) (s : State)
    (stored : get_job job.id s ≡ some job) (st : job.status ≡ running) where
  abbrev pub persist_of : Records → ℕ → Action Simulation
  persist_of records ms =
      transition_job_status (env.persists complete_job) job completed (outcome_of records ms)

  store_result-Finished :
      (v : Uuid × Records × ℕ) (t : State)
      → t.simulations ≡ s.simulations
      → Finished env job.id (store_result env job user key v t)
  unfolding store_result record_usage_result
  store_result-Finished (i, records, ms) t same =
      let o = outcome_of records ms in
      let m = persist_of records ms in
      let h = fail_persist env job user key in
      let done = apply_transition t.clock completed o job in
      let tell : Simulation → Action Simulation = λ j.
        record_usage_result (some user) none "simulation_completed" true j.num_interactions
          (some ms) key
        >> pure j in
      elim (Bool-cases (env.persists complete_job)) [
        | inl c ↦
            let (st', ids) = apply_transition_lem t.clock completed o job in
            rw
              (bind_ok (catch m h) tell t (
                catch_ok m h t (
                  running_to env job user key (env.persists complete_job) completed o t st
                    (inl refl) c)))
              (done, get_job_saved done job.id s t same stored refl ids, inl (st', refl))
        | inr c ↦
            let lost_commit : m t ≡ (err crash, t) =
              rw c (running_lost env job user key completed o t st (inl refl)) in
            rw
              (bind_err (catch m h) tell t
                (catch_err m h t lost_commit ∙ fail_persist_lem env job user key crash t c))
              (
                job,
                ap (find_first (λ j. j.id == job.id)) same ∙ stored,
                inr (inr (st, refl, inl c)),
              )
      ]

  pub finish_job-Finished : Finished env job.id (finish_job env job user key s)
  unfolding finish_job
  finish_job-Finished =
      let m =
        execute_simulation env job.preset job.num_interactions job.seed job.profile
          job.initial_state in
      let same =
        execute_simulation-SameRows env job.preset job.num_interactions job.seed job.profile
          job.initial_state s in
      elim (Result-cases (m s).0) [
        | inl (v, e) ↦
            rw
              (bind_ok (catch m (fail_run env job user key)) (store_result env job user key) s
                (catch_ok m (fail_run env job user key) s (λ i. (e i, (m s).1))))
              (store_result-Finished v (m s).1 same.simulations)
        | inr (x, e) ↦
            let u = refund_state env job user key (m s).1 in
            let rows = (refund_state-jobs env job user key (m s).1).0 ∙ same.simulations in
            let k = apply_transition u.clock failed (engine_failure x) job in
            let (st', ids) = apply_transition_lem u.clock failed (engine_failure x) job in
            let h = fail_run env job user key in
            let rest = store_result env job user key in
            elim (Bool-cases (env.persists fail_job)) [
              | inl kept ↦
                  rw
                    (bind_err (catch m h) rest s (
                      catch_err m h s (λ i. (e i, (m s).1))
                      ∙ fail_run_lem env job user key x (m s).1 st kept))
                    (k, get_job_saved k job.id s u rows stored refl ids, inr (inl (st', (_, refl))))
              | inr lost ↦
                  rw
                    (bind_err (catch m h) rest s (
                      catch_err m h s (λ i. (e i, (m s).1))
                      ∙ fail_run_lost env job user key x (m s).1 st lost))
                    (
                      job,
                      ap (find_first (λ j. j.id == job.id)) rows ∙ stored,
                      inr (inr (st, refl, inr lost)),
                    )
            ]
      ]

module _ (env : Env) (user : User) (key : Option Uuid) where
  -- A pending job with a row is run to its end: either its row is completed and is what is returned,
  -- or its row is failed and an error is raised. Only where the database refuses the completed or the
  -- failed state may the row be left running, and then the run ends with an unhandled exception.
  pub execute_simulation_job-Finished :
      (job : Simulation) (reserve_quota : Bool) (s : State)
      → get_job job.id s ≡ some job
      → job.status ≡ pending
      → Finished env job.id (execute_simulation_job env job user key reserve_quota s)
  unfolding execute_simulation_job apply_transition
  execute_simulation_job-Finished job reserve_quota s stored st =
      let run = apply_transition s.clock running no_outcome job in
      let (run_st, ids) = apply_transition_lem s.clock running no_outcome job in
      let t = save run s in
      let run_stored : get_job run.id t ≡ some run =
        get_job_saved run run.id s s refl (ap (λ i. get_job i s) ids ∙ stored) (sym ids) refl in
      let m = reserve_quota_for env run user key reserve_quota in
      let begin =
        bind_ok (transition_job_status true job running no_outcome)
          (λ j. reserve_quota_for env j user key reserve_quota >> finish_job env j user key) s
          (starts env user key job s st) in
      rw begin (elim (reserve_quota_for_lem env user key run reserve_quota t run_stored run_st) [
        | inl (r, same) ↦
            rw (bind_ok m (λ _. finish_job env run user key) t (λ i. (r i, (m t).1)))
              (finish_job-Finished env run user key (m t).1 same run_st)
        | inr (e, r, j, same, j_st) ↦
            rw (bind_err m (λ _. finish_job env run user key) t (λ i. (r i, (m t).1))) (
              j,
              ap (λ i. get_job i (m t).1) (sym ids) ∙ same,
              elim j_st [
                | inl ended ↦ inr (inl (ended, (e, refl)))
                | inr (runs, unhandled, lost) ↦
                    inr (inr (runs, ap (λ x. err x) unhandled, inr lost))
              ],
            )
      ])
