-- ===== src/Jobs/Steps.antt =====
-- The steps of `execute_simulation_job` of app/services/simulation_job.py: what each does to the job.
use behaviour_sim_api.Base.{
  ℕ, ◌≡◌, ◌∙◌, refl, inl, inr, arith, Bool, true, false, Option, String, Option-cases,
}
use behaviour_sim_api.Dict.{get, Eq-Text}
use behaviour_sim_api.Store.Rows.{Text, Uuid, Records, Status, running, failed, User, Simulation}
use behaviour_sim_api.Store.State.{State}
use behaviour_sim_api.Store.Env.{Env, complete_job, fail_job}
use behaviour_sim_api.Store.Action.{ok, err, Error, crash, raise, ◌>>◌, bind_ok, bind_err}
use behaviour_sim_api.Presets.{supported_presets, normalize_preset_name}
use behaviour_sim_api.Presets.Execute.{
  validate_simulation_parameters, check_options, execute_simulation, engine_outcome,
}
use behaviour_sim_api.Jobs.{
  save, Outcome, transition_job_status, commit_transition, apply_transition, refund_and_record,
  fail_run, fail_persist, unless_lost, engine_failure, engine_error,
}
use behaviour_sim_api.Jobs.Lifecycle.{IsTerminal}

-- The simulator runs between two statements: it changes neither the jobs nor the usage.
pub record SameRows (s t : State) : Type 0 where
  pub simulations : t.simulations ≡ s.simulations
  pub monthly_usage : t.monthly_usage ≡ s.monthly_usage
  pub plans : t.plans ≡ s.plans
  pub users : t.users ≡ s.users

pub validate-same :
    (preset : Text) (profile initial_state : Option String) (s : State)
    → (validate_simulation_parameters preset profile initial_state s).1 ≡ s
unfolding validate_simulation_parameters check_options
validate-same preset profile initial_state s =
    elim (Option-cases (get (normalize_preset_name preset) supported_presets)) [
      | inl e ↦ ground arith
      | inr (meta, e) ↦ ground arith
    ]

pub execute_simulation-SameRows :
    (env : Env) (preset : Text) (n : ℕ) (seed : Option ℕ) (profile initial_state : Option String)
    (s : State)
    → SameRows s (execute_simulation env preset n seed profile initial_state s).1
unfolding execute_simulation engine_outcome
execute_simulation-SameRows env preset n seed profile initial_state s = record {
  simulations = ground (arith, validate-same preset profile initial_state s);
  monthly_usage = ground (arith, validate-same preset profile initial_state s);
  plans = ground (arith, validate-same preset profile initial_state s);
  users = ground (arith, validate-same preset profile initial_state s);
}

module _ (env : Env) (job : Simulation) (user : User) (key : Option Uuid) where
  -- The transition of a running job.
  pub running_to :
      (commits : Bool) (to : Status) (o : Outcome) (s : State)
      → job.status ≡ running
      → IsTerminal to
      → commits ≡ true
      → transition_job_status commits job to o s
        ≡ (ok (apply_transition s.clock to o job), save (apply_transition s.clock to o job) s)
  unfolding transition_job_status commit_transition
  running_to commits to o s st term c = ground arith

  pub running_lost :
      (to : Status) (o : Outcome) (s : State)
      → job.status ≡ running
      → IsTerminal to
      → transition_job_status false job to o s ≡ (err crash, s)
  unfolding transition_job_status commit_transition
  running_lost to o s st term = ground arith

  -- The state after the refund and its event.
  abbrev pub refund_state : State → State
  refund_state s = (refund_and_record env user job.num_interactions key s).1

  pub refund_and_record-eq :
      (s : State) → refund_and_record env user job.num_interactions key s ≡ (ok tt, refund_state s)
  unfolding refund_and_record
  refund_and_record-eq s = refl

  pub refund_state-jobs :
      (s : State)
      → ((refund_state s).simulations ≡ s.simulations) × ((refund_state s).clock ≡ s.clock)
  unfolding refund_and_record
  refund_state-jobs s = (refl, refl)

  -- The job is failed where the database accepts that.
  pub fail_run_lem :
      (e : Error) (s : State)
      → job.status ≡ running
      → env.persists fail_job ≡ true
      → fail_run {A = Uuid × Records × ℕ} env job user key e s ≡ (
        err (engine_error e),
        save
            (apply_transition (refund_state s).clock failed (engine_failure e) job)
            (refund_state s),
      )
  unfolding fail_run
  fail_run_lem e s st kept =
      let m = transition_job_status (env.persists fail_job) job failed (engine_failure e) in
      bind_ok (refund_and_record env user job.num_interactions key)
        (λ _. m >> raise (engine_error e)) s (refund_and_record-eq s)
      ∙ bind_ok m (λ _. raise (engine_error e)) (refund_state s)
          (running_to (env.persists fail_job) failed (engine_failure e) (refund_state s) st
            (inr refl) kept)

  -- Else the refund stays, and the job too.
  pub fail_run_lost :
      (e : Error) (s : State)
      → job.status ≡ running
      → env.persists fail_job ≡ false
      → fail_run {A = Uuid × Records × ℕ} env job user key e s ≡ (err crash, refund_state s)
  unfolding fail_run
  fail_run_lost e s st lost =
      let m = transition_job_status (env.persists fail_job) job failed (engine_failure e) in
      let fails : m (refund_state s) ≡ (err crash, refund_state s) =
        rw lost (running_lost failed (engine_failure e) (refund_state s) st (inr refl)) in
      bind_ok (refund_and_record env user job.num_interactions key)
        (λ _. m >> raise (engine_error e)) s (refund_and_record-eq s)
      ∙ bind_err m (λ _. raise (engine_error e)) (refund_state s) fails

  -- After a lost commit the refund raises: nothing is given back, and the job is not failed.
  pub fail_persist_lem :
      (e : Error) (s : State)
      → env.persists complete_job ≡ false
      → fail_persist env job user key e s ≡ (err crash, s)
  unfolding fail_persist unless_lost
  fail_persist_lem e s lost = rw (lost, fail_persist) refl
