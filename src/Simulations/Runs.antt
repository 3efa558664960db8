-- ===== src/Simulations/Runs.antt =====
-- `run_simulation` of app/api/v1/simulations.py. The pending write `user.plan = plan` is made by
-- `reserve_usage`, which does the same assignment.
use behaviour_sim_api.Base.{
  is_part, ℕ, Bool, false, ◌||◌, not, Option, none, some, [], ◌∷◌, ltb, some_or, if◌then◌else◌,
}
use behaviour_sim_api.Store.Rows.{Text, Uuid, Plan, User, Simulation, number}
use behaviour_sim_api.Store.State.{State}
use behaviour_sim_api.Store.Env.{Env, create_job}
use behaviour_sim_api.Store.Action.{
  Error, api_error, Action, ok, pure, raise, raise_if, catch, finally, ◌>>=◌, ◌>>◌,
}
use behaviour_sim_api.Metrics.{record_simulation_accepted, record_simulation_completed}
use behaviour_sim_api.Concurrency.{acquire, release}
use behaviour_sim_api.Presets.{codes, lower}
use behaviour_sim_api.Presets.Execute.{validate_simulation_parameters}
use behaviour_sim_api.Usage.{resolve_plan, reserve_usage}
use behaviour_sim_api.Jobs.{
  RunRequest, create_simulation_job, execute_simulation_job, refund_and_record, unless_lost,
  simulation_persistence_failed,
}
use behaviour_sim_api.Worker.{plan_limit, count_metric}
use behaviour_sim_api.Simulations.Responses.{
  Principal, SimulationResponse, SimulationPendingResponse, RunResponse, accepted, executed,
}

unfoldable pub request_too_large : RunRequest → Plan → Error
request_too_large r plan = api_error (record {
  message = record {
    template = "Requested interactions ({}) exceeds your plan limit of {}.";
    values = number r.num_interactions ∷ number plan.max_interactions_per_request ∷ [];
  };
  status_code = 400;
  error_code = "interaction_limit_exceeded";
  details =
      ("requested", number r.num_interactions)
      ∷ ("max_allowed", number plan.max_interactions_per_request)
      ∷ [];
  headers = [];
})

unfoldable pub concurrent_simulation_limit_exceeded : ℕ → Error
concurrent_simulation_limit_exceeded max_concurrent = api_error (record {
  message = record {
    template = "Concurrent simulation limit exceeded. Your plan allows {} concurrent simulation.";
    values = number max_concurrent ∷ [];
  };
  status_code = 429;
  error_code = "concurrent_simulation_limit_exceeded";
  details = ("limit", number max_concurrent) ∷ [];
  headers = ("Retry-After", number 5) ∷ [];
})

-- `sync or (prefer is not None and "return=representation" in prefer.lower())`
unfoldable pub wants_sync : Bool → Option Text → Bool
wants_sync sync none = sync
wants_sync sync (some prefer) = sync || is_part (codes "return=representation") (lower prefer)

-- `principal.api_key.id if principal.api_key else None`
abbrev pub api_key_id : Principal → Option Uuid
api_key_id principal = elim principal.api_key [ none ↦ none | some key ↦ some key.id ]

-- The `except` block round the creation of the job, which is there for a commit that fails.
unfoldable pub fail_create : Env → User → RunRequest → Option Uuid → Action Simulation
fail_create env user r key = do
  unless_lost (not (env.persists create_job)) (refund_and_record env user r.num_interactions key)
  raise simulation_persistence_failed

-- The reservation and the creation of the job, which both modes begin with.
unfoldable pub reserve_and_create : Env → User → RunRequest → Option Uuid → Action Simulation
reserve_and_create env user r key = do
  reserve_usage env user r.num_interactions 1 key none
  catch (create_simulation_job env user r) (λ _. fail_create env user r key)

abbrev pub pending_response : Simulation → SimulationPendingResponse
pending_response job = record {
  simulation_id = job.id;
  preset = job.preset;
  num_interactions = job.num_interactions;
  status = job.status;
  seed = job.seed;
  created_at = job.created_at;
  updated_at = job.updated_at;
}

-- Mode A.
unfoldable pub submit : Env → User → RunRequest → Option Uuid → Action RunResponse
submit env user r key = do
  job ← reserve_and_create env user r key
  count_metric (record_simulation_accepted job.preset)
  pure (accepted (pending_response job))

abbrev pub executed_response : Env → Simulation → SimulationResponse
executed_response env job = record {
  simulation_id = job.id;
  preset = job.preset;
  num_interactions = job.num_interactions;
  status = job.status;
  seed = job.seed;
  records = some_or job.result_data [];
  metadata = record {
    behaviorsim_version = job.behaviorsim_version;
    api_version = env.api_version;
    compute_ms = some_or job.compute_ms 0;
    reproducible = job.reproducible;
  };
}

-- The body of the `try` of mode B.
unfoldable pub run_now : Env → User → RunRequest → Option Uuid → Action RunResponse
run_now env user r key = do
  job ← reserve_and_create env user r key
  done ← execute_simulation_job env job user key false
  count_metric (record_simulation_accepted done.preset)
  count_metric (record_simulation_completed (some_or done.compute_ms 0) (some 0) 0)
  pure (executed (executed_response env done))

-- The limiter's slot is a field of the state.
abbrev pub acquire_slot : Uuid → ℕ → Action Bool
acquire_slot user_id limit s =
    let (granted, counts) = acquire user_id limit s.active_counts in
    (ok granted, record s { active_counts = counts })

abbrev pub release_slot : Uuid → State → State
release_slot user_id s = record s { active_counts = (release user_id s.active_counts).1 }

-- Mode B.
unfoldable pub execute_sync : Env → User → Plan → RunRequest → Option Uuid → Action RunResponse
execute_sync env user plan r key = do
  granted ← acquire_slot user.id (plan_limit (some plan))
  raise_if (not granted) (concurrent_simulation_limit_exceeded (plan_limit (some plan)))
  finally (run_now env user r key) (release_slot user.id)

-- `run_simulation` once the plan is known.
unfoldable pub run_for_plan :
    Env → Principal → RunRequest → Bool → Option Text → Plan → Action RunResponse
run_for_plan env principal r sync prefer plan = do
  validate_simulation_parameters r.preset r.profile r.initial_state
  raise_if (ltb plan.max_interactions_per_request r.num_interactions) (request_too_large r plan)
  if wants_sync sync prefer
      then execute_sync env principal.user plan r (api_key_id principal)
      else submit env principal.user r (api_key_id principal)

unfoldable pub run_simulation :
    Env → Principal → RunRequest → Bool → Option Text → Action RunResponse
run_simulation env principal r sync prefer =
    resolve_plan principal.user >>= run_for_plan env principal r sync prefer
