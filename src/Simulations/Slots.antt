-- ===== src/Simulations/Slots.antt =====
-- The concurrency slot of a synchronous run in `run_simulation` of app/api/v1/simulations.py.
use behaviour_sim_api.Base.{
  ℕ, ◌≡◌, ◌∙◌, ap, refl, inl, inr, arith, Bool, true, false, not, Option, none, some, some_or,
  String, ltb, if◌then◌else◌,
}
use behaviour_sim_api.Dict.{Eq-Text}
use behaviour_sim_api.Store.Rows.{
  Text, Uuid, Plan, User, Simulation, Status, Records, running, completed, failed,
}
use behaviour_sim_api.Store.State.{State}
use behaviour_sim_api.Store.Env.{Env, complete_job, fail_job}
use behaviour_sim_api.Store.Action.{Action, Error, crash, pure, raise, raise_if, catch, ◌>>=◌, ◌>>◌}
use behaviour_sim_api.Store.Keeps.{Keeps, bind-Keeps, then-Keeps, catch-Keeps, if-Keeps}
use behaviour_sim_api.Concurrency.{
  ActiveCounts, acquire, release, get_active_count, acquire_lem, release-acquire,
}
use behaviour_sim_api.Presets.Execute.{
  execute_simulation, engine_outcome, validate_simulation_parameters,
}
use behaviour_sim_api.Usage.{
  record_usage_result, reserve_usage, resolve_plan, reserve_for_plan, settle_usage, charge_usage,
  quota_exhausted, get_or_create_monthly_usage, get_or_create_free_plan, add_event, refund_usage,
}
use behaviour_sim_api.Jobs.{
  RunRequest, Outcome, no_outcome, create_simulation_job, refund_and_record, transition_job_status,
  commit_transition, execute_simulation_job, finish_job, fail_run, fail_persist, store_result,
  unless_lost, reserve_quota_for, engine_error, simulation_persistence_failed, plain, failure,
  engine_failure,
}
use behaviour_sim_api.Jobs.Steps.{validate-same}
use behaviour_sim_api.Metrics.{record_simulation_accepted, record_simulation_completed}
use behaviour_sim_api.Worker.{plan_limit, count_metric}
use behaviour_sim_api.Simulations.Responses.{Principal, accepted, executed}
use behaviour_sim_api.Simulations.Runs.{
  run_simulation, run_for_plan, submit, execute_sync, run_now, reserve_and_create, fail_create,
  executed_response, pending_response, wants_sync, api_key_id, request_too_large,
}

abbrev counts : State → ActiveCounts
counts s = s.active_counts

module _ (env : Env) (user : User) (key : Option Uuid) where
  reserve_usage-Keeps : (n : ℕ) → Keeps counts (reserve_usage env user n 1 key none)
  unfolding reserve_usage resolve_plan reserve_for_plan settle_usage charge_usage quota_exhausted
      get_or_create_monthly_usage add_event
  reserve_usage-Keeps n s = ground arith

  create-Keeps : (r : RunRequest) → Keeps counts (create_simulation_job env user r)
  unfolding create_simulation_job
  create-Keeps r s = ground arith

  refund_and_record-Keeps : (n : ℕ) → Keeps counts (refund_and_record env user n key)
  unfolding refund_and_record refund_usage record_usage_result add_event
  refund_and_record-Keeps n s = refl

  transition-Keeps :
      (commits : Bool) (job : Simulation) (to : Status) (o : Outcome)
      → Keeps counts (transition_job_status commits job to o)
  unfolding transition_job_status commit_transition
  transition-Keeps commits job to o s = ground arith

  execute_simulation-Keeps :
      (preset : Text) (n : ℕ) (seed : Option ℕ) (profile initial_state : Option String)
      → Keeps counts (execute_simulation env preset n seed profile initial_state)
  unfolding execute_simulation engine_outcome
  execute_simulation-Keeps preset n seed profile initial_state s =
      ground (arith, validate-same preset profile initial_state s)

  unless_lost-Keeps :
      {A : Type 0} (lost : Bool) (m : Action A) → Keeps counts m → Keeps counts (unless_lost lost m)
  unfolding unless_lost
  unless_lost-Keeps lost m h = if-Keeps counts lost (raise crash) m (λ s. refl) h

  reserve_and_create-Keeps : (r : RunRequest) → Keeps counts (reserve_and_create env user r key)
  unfolding reserve_and_create fail_create unless_lost
  reserve_and_create-Keeps r s =
      let n = r.num_interactions in
      let t = (reserve_usage env user n 1 key none s).1 in
      let u = (create_simulation_job env user r t).1 in
      ground (arith, reserve_usage-Keeps n s, create-Keeps r t, refund_and_record-Keeps n u)

  fail_run-Keeps :
      (job : Simulation) (e : Error)
      → Keeps counts (fail_run {A = Uuid × Records × ℕ} env job user key e)
  unfolding fail_run
  fail_run-Keeps job e =
      let k = transition_job_status (env.persists fail_job) job failed (engine_failure e) in
      then-Keeps counts (refund_and_record env user job.num_interactions key)
        (k >> raise (engine_error e)) (refund_and_record-Keeps job.num_interactions)
        (then-Keeps counts k (raise (engine_error e))
          (transition-Keeps (env.persists fail_job) job failed (engine_failure e)) (λ s. refl))

  fail_persist-Keeps :
      (job : Simulation) (e : Error) → Keeps counts (fail_persist env job user key e)
  unfolding fail_persist
  fail_persist-Keeps job e =
      let back = refund_and_record env user job.num_interactions key in
      let o = failure "simulation_persistence_failed" (plain "Failed to persist simulation run.") in
      let k = transition_job_status (env.persists fail_job) job failed o in
      let tried = catch k (λ _. pure job) in
      then-Keeps counts (unless_lost (not (env.persists complete_job)) back)
        (tried >> raise simulation_persistence_failed)
        (unless_lost-Keeps (not (env.persists complete_job)) back
          (refund_and_record-Keeps job.num_interactions))
        (then-Keeps counts tried (raise simulation_persistence_failed)
          (catch-Keeps counts k (λ _. pure job)
            (transition-Keeps (env.persists fail_job) job failed o) (λ e s. refl))
          (λ s. refl))

  store_result-Keeps :
      (job : Simulation) (o : Uuid × Records × ℕ) → Keeps counts (store_result env job user key o)
  unfolding store_result record_usage_result add_event
  store_result-Keeps job (id, records, ms) =
      let o = record no_outcome { result_data = some records; compute_ms = some ms } in
      let k = transition_job_status (env.persists complete_job) job completed o in
      bind-Keeps counts (catch k (fail_persist env job user key))
        (λ done.
          record_usage_result (some user) none "simulation_completed" true done.num_interactions
            (some ms) key
          >> pure done)
        (catch-Keeps counts k (fail_persist env job user key)
          (transition-Keeps (env.persists complete_job) job completed o) (fail_persist-Keeps job))
        (λ done s. refl)

  finish_job-Keeps : (job : Simulation) → Keeps counts (finish_job env job user key)
  unfolding finish_job
  finish_job-Keeps job =
      let m =
        execute_simulation env job.preset job.num_interactions job.seed job.profile
          job.initial_state in
      bind-Keeps counts (catch m (fail_run env job user key)) (store_result env job user key)
        (catch-Keeps counts m (fail_run env job user key)
          (execute_simulation-Keeps job.preset job.num_interactions job.seed job.profile
            job.initial_state)
          (fail_run-Keeps job))
        (store_result-Keeps job)

  execute-Keeps : (job : Simulation) → Keeps counts (execute_simulation_job env job user key false)
  unfolding execute_simulation_job reserve_quota_for
  execute-Keeps job =
      bind-Keeps counts (transition_job_status true job running no_outcome)
        (λ j. finish_job env j user key) (transition-Keeps true job running no_outcome)
        finish_job-Keeps

  run_now-Keeps : (r : RunRequest) → Keeps counts (run_now env user r key)
  unfolding run_now
  run_now-Keeps r =
      let finished = λ (done : Simulation).
        count_metric (record_simulation_accepted done.preset)
        >> (count_metric (record_simulation_completed (some_or done.compute_ms 0) (some 0) 0)
            >> pure (executed (executed_response env done))) in
      bind-Keeps counts (reserve_and_create env user r key)
        (λ j. execute_simulation_job env j user key false >>= finished) (reserve_and_create-Keeps r)
        λ j.
          bind-Keeps counts (execute_simulation_job env j user key false) finished (execute-Keeps j)
            λ done s. refl

module _ (env : Env) (principal : Principal) (r : RunRequest) (sync : Bool)
    (prefer : Option Text) where
  abbrev uid : Uuid
  uid = principal.user.id

  -- A run that acquires a slot gives it back.
  execute_sync_lem :
      (plan : Plan) (s : State) (v : Uuid)
      → get_active_count v
          (execute_sync env principal.user plan r (api_key_id principal) s).1.active_counts
        ≡ get_active_count v s.active_counts
  unfolding execute_sync
  execute_sync_lem plan s v =
      let limit = plan_limit (some plan) in
      let (granted, b) = acquire uid limit s.active_counts in
      let t = record s { active_counts = b } in
      elim (acquire_lem uid limit s.active_counts).0 [
        | inl (got, more, within) ↦ rw got (
            ap (λ a. get_active_count v (release uid a).1)
              (run_now-Keeps env principal.user (api_key_id principal) r t)
            ∙ release-acquire uid limit s.active_counts (ground arith) v)
        | inr (refused, same, _) ↦ rw refused (ap (get_active_count v) same)
      ]

  submit-Keeps : Keeps counts (submit env principal.user r (api_key_id principal))
  unfolding submit
  submit-Keeps =
      bind-Keeps counts (reserve_and_create env principal.user r (api_key_id principal))
        (λ job.
          count_metric (record_simulation_accepted job.preset)
          >> pure (accepted (pending_response job)))
        (reserve_and_create-Keeps env principal.user (api_key_id principal) r) λ job s. refl

  resolve_plan-Keeps : Keeps counts (resolve_plan principal.user)
  unfolding resolve_plan get_or_create_free_plan
  resolve_plan-Keeps s = ground arith

  abbrev slots : Uuid → State → ℕ
  slots v s = get_active_count v s.active_counts

  run_for_plan-Keeps :
      (v : Uuid) (plan : Plan) → Keeps (slots v) (run_for_plan env principal r sync prefer plan)
  unfolding run_for_plan
  run_for_plan-Keeps v plan =
      let key = api_key_id principal in
      let limit =
        raise_if (ltb plan.max_interactions_per_request r.num_interactions)
          (request_too_large r plan) in
      let now = execute_sync env principal.user plan r key in
      let later = submit env principal.user r key in
      let either = if wants_sync sync prefer then now else later in
      then-Keeps (slots v) (validate_simulation_parameters r.preset r.profile r.initial_state)
        (limit >> either) (λ s. ap (slots v) (validate-same r.preset r.profile r.initial_state s))
        (then-Keeps (slots v) limit either (λ s. refl)
          (if-Keeps (slots v) (wants_sync sync prefer) now later (λ s. execute_sync_lem plan s v)
            (λ s. ap (get_active_count v) (submit-Keeps s))))

  -- Whatever the answer, a run gives back the slot that it has taken: when it has ended, every user's
  -- count of active simulations is what it was before.
  pub run_simulation_slots :
      (s : State) (v : Uuid)
      → get_active_count v (run_simulation env principal r sync prefer s).1.active_counts
        ≡ get_active_count v s.active_counts
  unfolding run_simulation
  run_simulation_slots s v =
      bind-Keeps (slots v) (resolve_plan principal.user) (run_for_plan env principal r sync prefer)
        (λ t. ap (get_active_count v) (resolve_plan-Keeps t)) (run_for_plan-Keeps v) s
