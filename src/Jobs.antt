-- ===== src/Jobs.antt =====
-- app/services/simulation_job.py: the lifecycle of a simulation job. A job is passed as the object
-- that the code holds; `save` writes it to its row. A commit that fails raises `crash` and leaves the
-- rows as they were. SQLAlchemy's session can then not be used until `rollback()`, which this file does
-- not call: each further statement raises too.
pub mod Lifecycle
pub mod Steps
pub mod Reservation
pub mod Execution
pub mod Charging
use behaviour_sim_api.Base.{
  ℕ, ◌+◌, ◌≡◌, Bool, true, false, ◌&&◌, not, Option, none, some, List, [], ◌∷◌, ◌++◌, String, ◌==◌,
  is_some, some_or, if◌then◌else◌, update_where, find_first,
}
use behaviour_sim_api.Store.Rows.{
  Text, Uuid, Instant, Records, Status, pending, running, completed, failed, User, Simulation,
  Datum, status, text, Message,
}
use behaviour_sim_api.Store.State.{State}
use behaviour_sim_api.Store.Env.{Env, create_job, complete_job, fail_job}
use behaviour_sim_api.Store.Action.{
  ApiError, Error, api_error, crash, ok, err, Action, pure, raise, raise_if, modify, catch, utc_now,
  uuid4, ◌>>=◌, ◌>>◌,
}
use behaviour_sim_api.Presets.{normalize_preset_name}
use behaviour_sim_api.Presets.Execute.{execute_simulation, simulation_generation_failed}
use behaviour_sim_api.Usage.{reserve_usage, refund_usage, record_usage_result}

abbrev pub status_eq : Status → Status → Bool
status_eq pending pending = true
status_eq running running = true
status_eq completed completed = true
status_eq failed failed = true
status_eq _ _ = false

-- `VALID_TRANSITIONS`
abbrev pub can_transition : Status → Status → Bool
can_transition pending running = true
can_transition pending failed = true
can_transition running completed = true
can_transition running failed = true
can_transition _ _ = false

unfoldable pub invalid_state_transition : Status → Status → Error
invalid_state_transition current target = api_error (record {
  message = record {
    template = "Cannot transition simulation from '{}' to '{}'.";
    values = status current ∷ status target ∷ [];
  };
  status_code = 400;
  error_code = "invalid_state_transition";
  details = ("current_status", status current) ∷ ("target_status", status target) ∷ [];
  headers = [];
})

-- What a transition is given besides the target.
pub record Outcome : Type 0 where
  pub error_code : Option String
  pub error_message : Option Message
  pub result_data : Option Records
  pub compute_ms : Option ℕ

abbrev pub no_outcome : Outcome
no_outcome = record {
  error_code = none;
  error_message = none;
  result_data = none;
  compute_ms = none;
}

-- `if x is not None: job.f = x`
abbrev pub or_keep {ℓ} : {A : Type ℓ} → Option A → Option A → Option A
or_keep none old = old
or_keep (some a) old = some a

-- The assignments to the job's fields, by the target status.
unfoldable pub apply_transition : Instant → Status → Outcome → Simulation → Simulation
apply_transition now pending o job = record job { status = pending; updated_at = now }
apply_transition now running o job = record job {
  status = running;
  updated_at = now;
  started_at = some now;
}
apply_transition now completed o job = record job {
  status = completed;
  updated_at = now;
  completed_at = some now;
  result_data = or_keep o.result_data job.result_data;
  compute_ms = or_keep o.compute_ms job.compute_ms;
}
apply_transition now failed o job = record job {
  status = failed;
  updated_at = now;
  completed_at = some now;
  error_code = o.error_code;
  error_message = o.error_message;
}

-- `db.add(job); db.commit()` for a job that has a row.
abbrev pub save : Simulation → State → State
save job s = record s { simulations = update_where (λ j. j.id == job.id) (λ _. job) s.simulations }

-- `db.get(Simulation, id)`
abbrev pub get_job : Uuid → State → Option Simulation
get_job id s = find_first (λ j. j.id == id) s.simulations

-- `commits` says whether the commit succeeds; `unless_lost` is about the session where not.
unfoldable pub commit_transition : Bool → Status → Outcome → Simulation → Action Simulation
commit_transition commits to o job = do
  now ← utc_now
  raise_if (not commits) crash
  modify (save (apply_transition now to o job))
  pure (apply_transition now to o job)

unfoldable pub transition_job_status : Bool → Simulation → Status → Outcome → Action Simulation
transition_job_status commits job to o s =
    if status_eq job.status to
    then pure job s
    else (if can_transition job.status to
        then commit_transition commits to o job s
        else raise (invalid_state_transition job.status to) s)

unfoldable pub simulation_persistence_failed : Error
simulation_persistence_failed = api_error (record {
  message = record {
    template = "Failed to persist simulation run. Quota has been refunded.";
    values = [];
  };
  status_code = 500;
  error_code = "simulation_persistence_failed";
  details = [];
  headers = [];
})

-- The parameters of a run.
pub record RunRequest : Type 0 where
  pub preset : Text
  pub num_interactions : ℕ
  pub seed : Option ℕ
  pub profile : Option String
  pub initial_state : Option String

unfoldable pub new_job : Env → Uuid → User → RunRequest → Instant → Simulation
new_job env id user r now = record {
  id = id;
  user_id = user.id;
  preset = normalize_preset_name r.preset;
  num_interactions = r.num_interactions;
  seed = r.seed;
  profile = r.profile;
  initial_state = r.initial_state;
  status = pending;
  result_storage = "database";
  result_location = none;
  result_data = none;
  behaviorsim_version = "1.0.1";
  api_version = env.api_version;
  compute_ms = none;
  reproducible = is_some r.seed;
  error_code = none;
  error_message = none;
  created_at = now;
  started_at = none;
  completed_at = none;
  updated_at = now;
  worker_id = none;
  claimed_at = none;
  heartbeat_at = none;
  attempt_count = 0;
  max_attempts = 3;
}

unfoldable pub create_simulation_job : Env → User → RunRequest → Action Simulation
create_simulation_job env user r = do
  now ← utc_now
  id ← uuid4
  raise_if (not (env.persists create_job)) simulation_persistence_failed
  modify (λ s. record s { simulations = s.simulations ++ new_job env id user r now ∷ [] })
  pure (new_job env id user r now)

-- What a session does after a commit, `lost` saying that it failed: statements raise.
unfoldable pub unless_lost : {A : Type 0} → Bool → Action A → Action A
unless_lost lost m = if lost then raise crash else m

-- The `except` blocks give the quota back and record the failure.
unfoldable pub refund_and_record : Env → User → ℕ → Option Uuid → Action (Unit {0})
unfolding refund_usage record_usage_result
refund_and_record env user num_interactions api_key_id = do
  refund_usage env (some user) (some user.id) num_interactions 1
  record_usage_result (some user) (some user.id) "simulation_failed" false 0 (some 0) api_key_id

-- A message with nothing put in.
abbrev pub plain : String → Message
plain t = record { template = t; values = [] }

abbrev pub failure : String → Message → Outcome
failure code message = record no_outcome { error_code = some code; error_message = some message }

-- `b_err.details.get("code")` and `b_err.message`, or those of `except Exception`.
abbrev pub engine_code : Error → String
engine_code (api_error e) = e.error_code
engine_code crash = "simulation_generation_failed"

abbrev pub engine_message : Error → Message
engine_message (api_error e) = e.message
engine_message crash = plain "Internal simulation generation failed."

abbrev pub engine_failure : Error → Outcome
engine_failure e = failure (engine_code e) (engine_message e)

-- `raise`, or `raise BehaviorSimAPIError(...) from exc`.
abbrev pub engine_error : Error → Error
engine_error (api_error e) = api_error e
engine_error crash = simulation_generation_failed

-- The `except` blocks round the simulator.
unfoldable pub fail_run : {A : Type 0} → Env → Simulation → User → Option Uuid → Error → Action A
unfolding refund_and_record transition_job_status
fail_run env job user api_key_id e = do
  refund_and_record env user job.num_interactions api_key_id
  transition_job_status (env.persists fail_job) job failed (engine_failure e)
  raise (engine_error e)

-- The `except` block round the last transition.
unfoldable pub fail_persist : Env → Simulation → User → Option Uuid → Error → Action Simulation
unfolding unless_lost refund_and_record transition_job_status
fail_persist env job user api_key_id e = do
  unless_lost (not (env.persists complete_job))
      (refund_and_record env user job.num_interactions api_key_id)
  catch
      (transition_job_status (env.persists fail_job) job failed
        (failure "simulation_persistence_failed" (plain "Failed to persist simulation run.")))
      (λ _. pure job)
  raise simulation_persistence_failed

-- The `except` block round the reservation.
unfoldable pub fail_quota : Env → Simulation → Error → Action (Unit {0})
unfolding transition_job_status
fail_quota env job e = do
  transition_job_status (env.persists fail_job) job failed
      (failure "quota_exceeded" (plain "Monthly request or interaction quota exhausted."))
  raise e

-- The transition to `completed`, and the event of step 5.
unfoldable pub store_result :
    Env → Simulation → User → Option Uuid → Uuid × Records × ℕ → Action Simulation
store_result env job user api_key_id (_, records, ms) = do
  done ←
      catch
        (transition_job_status (env.persists complete_job) job completed
          (record no_outcome { result_data = some records; compute_ms = some ms }))
        (fail_persist env job user api_key_id)
  record_usage_result (some user) none "simulation_completed" true done.num_interactions (some ms)
      api_key_id
  pure done

-- Steps 3 to 5, for a job that runs.
unfoldable pub finish_job : Env → Simulation → User → Option Uuid → Action Simulation
finish_job env job user api_key_id =
    catch
      (execute_simulation env job.preset job.num_interactions job.seed job.profile
        job.initial_state)
      (fail_run env job user api_key_id)
    >>= store_result env job user api_key_id

-- Step 2.
unfoldable pub reserve_quota_for : Env → Simulation → User → Option Uuid → Bool → Action (Unit {0})
reserve_quota_for env job user api_key_id reserve_quota =
    if reserve_quota
    then catch (reserve_usage env user job.num_interactions 1 api_key_id none >> pure tt)
        (fail_quota env job)
    else pure tt

unfoldable pub execute_simulation_job :
    Env → Simulation → User → Option Uuid → Bool → Action Simulation
execute_simulation_job env job user api_key_id reserve_quota = do
  started ← transition_job_status true job running no_outcome
  reserve_quota_for env started user api_key_id reserve_quota
  finish_job env started user api_key_id
