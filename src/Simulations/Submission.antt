-- ===== src/Simulations/Submission.antt =====
-- What a submission by `run_simulation` of app/api/v1/simulations.py charges and stores.
use behaviour_sim_api.Base.{
  ◌≤◌, ◌≡◌, ◌⊎◌, ◌∙◌, refl, inl, inr, arith, Bool, true, false, Option, some, Bool-cases, ltb,
  if◌then◌else◌,
}
use behaviour_sim_api.Store.Rows.{Text, Uuid, Plan, Simulation}
use behaviour_sim_api.Store.State.{State}
use behaviour_sim_api.Store.Env.{Env, create_job}
use behaviour_sim_api.Store.Action.{
  Action, ok, err, crash, Error, Result, raise_if, pure, Result-cases, ◌>>◌, bind_ok, bind_err,
}
use behaviour_sim_api.Metrics.{record_simulation_accepted}
use behaviour_sim_api.Presets.Execute.{validate_simulation_parameters}
use behaviour_sim_api.Usage.{user_plan, resolve_plan}
use behaviour_sim_api.Usage.Counts.{UsageRows}
use behaviour_sim_api.Jobs.{RunRequest}
use behaviour_sim_api.Jobs.Steps.{validate-same}
use behaviour_sim_api.Worker.{count_metric}
use behaviour_sim_api.Simulations.Responses.{Principal, RunResponse, accepted}
use behaviour_sim_api.Simulations.Runs.{
  run_simulation, run_for_plan, submit, execute_sync, reserve_and_create, pending_response,
  wants_sync, api_key_id, request_too_large,
}
use behaviour_sim_api.Simulations.Admission.{
  Admits, Charged, Counted, Untouched, reserve_and_create-ok, reserve_and_create_lost,
  reserve_and_create-err, Admits-cases,
}

module _ (env : Env) (principal : Principal) (r : RunRequest) (sync : Bool) (prefer : Option Text)
    (s : State) (plan : Plan) (has_plan : user_plan s principal.user ≡ some plan)
    (h : UsageRows s) where
  abbrev result : Result RunResponse × State
  result = run_simulation env principal r sync prefer s

  -- The preset, the profile and the initial state are valid.
  abbrev pub Valid : Type 0
  Valid =
      (canonical : Text) × ((validate_simulation_parameters r.preset r.profile r.initial_state s).0
        ≡ ok canonical)

  begins : result ≡ run_for_plan env principal r sync prefer plan s
  unfolding run_simulation resolve_plan
  begins = ground (arith, has_plan)

  abbrev key : Option Uuid
  key = api_key_id principal

  abbrev validate : Action Text
  validate = validate_simulation_parameters r.preset r.profile r.initial_state

  -- What follows the validation.
  abbrev checked : Action RunResponse
  checked =
      raise_if (ltb plan.max_interactions_per_request r.num_interactions) (request_too_large r plan)
      >> (if wants_sync sync prefer
          then execute_sync env principal.user plan r key
          else submit env principal.user r key)

  same_state : (validate s).1 ≡ s
  same_state = validate-same r.preset r.profile r.initial_state s

  pub valid_lem : Valid → result ≡ checked s
  unfolding run_for_plan
  valid_lem (c, valid) = begins ∙ bind_ok validate (λ _. checked) s (λ i. (valid i, same_state i))

  pub invalid_lem : (e : Error) → (validate s).0 ≡ err e → result ≡ (err e, s)
  unfolding run_for_plan
  invalid_lem e invalid =
      begins ∙ bind_err validate (λ _. checked) s (λ i. (invalid i, same_state i))

  queued :
      wants_sync sync prefer ≡ false
      → r.num_interactions ≤ plan.max_interactions_per_request
      → checked s ≡ submit env principal.user r key s
  queued queue small = ground (arith, queue)

  too_large :
      ltb plan.max_interactions_per_request r.num_interactions ≡ true
      → checked s ≡ (err (request_too_large r plan), s)
  too_large large = rw large refl

  submit-ok :
      (j : Simulation) (s' : State)
      → reserve_and_create env principal.user r key s ≡ (ok j, s')
      → submit env principal.user r key s ≡ (
        ok (accepted (pending_response j)),
        record s' { metrics = record_simulation_accepted j.preset s'.metrics },
      )
  unfolding submit
  submit-ok j s' e =
      bind_ok (reserve_and_create env principal.user r key)
        (λ job.
          count_metric (record_simulation_accepted job.preset)
          >> pure (accepted (pending_response job)))
        s e

  submit-err :
      (e : Error) (s' : State)
      → reserve_and_create env principal.user r key s ≡ (err e, s')
      → submit env principal.user r key s ≡ (err e, s')
  unfolding submit
  submit-err x s' e =
      bind_err (reserve_and_create env principal.user r key)
        (λ job.
          count_metric (record_simulation_accepted job.preset)
          >> pure (accepted (pending_response job)))
        s e

  abbrev pub Admitted : Type 0
  Admitted = Admits env principal.user r key s plan has_plan h

  -- For a user with a plan, usage rows with distinct and used ids, and a request that is not to run
  -- at once: if its parameters are valid and it is within the plan's limits and what is left of the
  -- month's quota, the user alone is charged for it. Then, where the database takes the job, the answer
  -- is the new pending job, which is stored; where it refuses the job, none is stored, the answer is
  -- an unhandled exception, and the charge stays. A request that is not valid or not within the limits
  -- is answered with an error, no job is stored and no counts change.
  pub run_simulation-charges :
      wants_sync sync prefer ≡ false
      → ((Valid × Admitted × (env.persists create_job ≡ true))
          × (j : Simulation) × (result.0 ≡ ok (accepted (pending_response j)))
          × Charged env principal.user r key s plan has_plan h j result.1)
        ⊎ ((Valid × Admitted × (env.persists create_job ≡ false))
            × (result.0 ≡ err crash)
            × (result.1.simulations ≡ s.simulations)
            × Counted env principal.user r key s plan has_plan h result.1)
        ⊎ (¬ (Valid × Admitted)
            × (e : Error) × (result.0 ≡ err e)
            × Untouched env principal.user r key s plan has_plan h result.1)
  run_simulation-charges queue = elim (Result-cases (validate s).0) [
    | inr (e, invalid) ↦ rw (invalid_lem e invalid) (
        inr (inr (λ ((c, valid), _). ground (arith, valid, invalid), e, refl, (refl, λ v q. refl))))
    | inl valid ↦ elim (Admits-cases env principal.user r key s plan has_plan h) [
      | inl admits ↦
          let submitted = valid_lem valid ∙ queued queue admits.0 in
          elim (Bool-cases (env.persists create_job)) [
            | inl stored ↦
                let (j, s', made, charged) =
                  reserve_and_create-ok env principal.user r key s plan has_plan h admits stored in
                rw (submitted ∙ submit-ok j s' made)
                  (inl ((valid, admits, stored), j, refl, charged))
            | inr lost ↦
                let (s', made, none_stored, counted) =
                  reserve_and_create_lost env principal.user r key s plan has_plan h admits lost in
                rw (submitted ∙ submit-err crash s' made)
                  (inr (inl ((valid, admits, lost), refl, none_stored, counted)))
          ]
      | inr refuses ↦ elim (Bool-cases (ltb plan.max_interactions_per_request r.num_interactions)) [
        | inl large ↦
            rw (valid_lem valid ∙ too_large large)
              (inr (inr (λ (_, admits). refuses admits, _, refl, (refl, λ v q. refl))))
        | inr small ↦
            let (e, s', made, same) =
              reserve_and_create-err env principal.user r key s plan has_plan h refuses in
            rw (valid_lem valid ∙ queued queue (ground arith) ∙ submit-err e s' made)
              (inr (inr (λ (_, admits). refuses admits, e, refl, same)))
      ]
    ]
  ]
