-- ===== src/Worker/Process.antt =====
-- `update_job_heartbeat` and `process_claimed_job` of app/services/worker.py.
use behaviour_sim_api.Base.{
  ℕ, ◌-◌, ◌/◌, Bool, true, false, ◌&&◌, Option, none, some, String, str_eq, if◌then◌else◌,
}
use behaviour_sim_api.Store.Rows.{Uuid, Instant, Records, running, completed, Simulation, Message}
use behaviour_sim_api.Store.State.{State}
use behaviour_sim_api.Store.Env.{Env, complete_job, fail_job}
use behaviour_sim_api.Store.Action.{Action, pure, modify, catch, utc_now, ◌>>=◌, ◌>>◌}
use behaviour_sim_api.Metrics.{record_simulation_failed, record_simulation_completed}
use behaviour_sim_api.Usage.{record_usage_result}
use behaviour_sim_api.Presets.Execute.{execute_simulation}
use behaviour_sim_api.Jobs.{status_eq, save, get_job, plain, engine_code, engine_message}
use behaviour_sim_api.Worker.{fail_and_refund, count_metric}

abbrev pub is_worker : String → Option String → Bool
is_worker w none = false
is_worker w (some v) = str_eq v w

-- `job.status == STATUS_RUNNING and job.worker_id == worker_id`
abbrev pub held_by : String → Simulation → Bool
held_by worker_id j = status_eq j.status running && is_worker worker_id j.worker_id

abbrev pub beat : Instant → Simulation → Simulation
beat now j = record j { heartbeat_at = some now; updated_at = now }

unfoldable pub update_job_heartbeat : Uuid → String → Action Bool
update_job_heartbeat job_id worker_id s = elim (get_job job_id s) [
  | none ↦ pure false s
  | some j ↦
      if held_by worker_id j then (modify (save (beat s.clock j)) >> pure true) s else pure false s
]

-- How the simulator ended for the worker.
pub data Ended : Type 0 where
  produced : Records → ℕ → Ended
  broke : String → Message → Ended

unfoldable pub run_engine : Env → Simulation → Action Ended
unfolding execute_simulation
run_engine env job =
    catch
      (do
        (_, records, ms) ←
            execute_simulation env job.preset job.num_interactions job.seed job.profile
              job.initial_state
        pure (produced records ms))
      (λ e. pure (broke (engine_code e) (engine_message e)))

-- `max(0, int((claimed_at - created_at).total_seconds() * 1000))`
abbrev pub queue_wait_ms : Simulation → Option ℕ
queue_wait_ms j = elim j.claimed_at [ none ↦ none | some c ↦ some ((c - j.created_at) / 1000) ]

abbrev pub completed_with : Simulation → Instant → Records → ℕ → Simulation
completed_with j now records ms = record j {
  status = completed;
  result_data = some records;
  compute_ms = some ms;
  completed_at = some now;
  updated_at = now;
}

-- The branch `exec_error_code is not None`.
unfoldable pub store_failure : Env → Simulation → Simulation → String → Message → Action Bool
unfolding fail_and_refund
store_failure env job current code message = do
  now ← utc_now
  fail_and_refund env current job.user_id job.num_interactions now code message
  count_metric (record_simulation_failed code)
  pure false

-- The `except` block of the success branch, after `db.rollback()`.
unfoldable pub store_fallback : Env → Simulation → Action Bool
unfolding fail_and_refund
store_fallback env job s = elim (get_job job.id s) [
  | none ↦ pure false s
  | some current ↦
      if env.persists fail_job
      then (do
        now ← utc_now
        fail_and_refund env current job.user_id job.num_interactions now
            "simulation_persistence_failed" (plain "Failed to persist simulation run.")
        count_metric (record_simulation_failed "simulation_persistence_failed")
        pure false)
          s
      else pure false s
]

unfoldable pub store_success : Env → Simulation → Simulation → Records → ℕ → Action Bool
unfolding record_usage_result store_fallback
store_success env job current records ms s =
    if env.persists complete_job
    then (do
      now ← utc_now
      modify (save (completed_with current now records ms))
      record_usage_result none (some job.user_id) "simulation_completed" true job.num_interactions
          (some ms) none
      count_metric (record_simulation_completed ms (queue_wait_ms current) job.num_interactions)
      pure true)
        s
    else store_fallback env job s

unfoldable pub store_outcome : Env → Simulation → String → Ended → Action Bool
unfolding store_failure store_success
store_outcome env job worker_id ended s = elim (get_job job.id s) [
  | none ↦ pure false s
  | some current ↦
      if held_by worker_id current
      then elim ended [
        | produced records ms ↦ store_success env job current records ms s
        | broke code message ↦ store_failure env job current code message s
      ]
      else pure false s
]

-- `meanwhile` is what other processes do to the state while the simulator runs.
unfoldable pub process_claimed_job : Env → (State → State) → Simulation → String → Action Bool
unfolding run_engine store_outcome
process_claimed_job env meanwhile job worker_id = do
  ended ← run_engine env job
  modify meanwhile
  store_outcome env job worker_id ended
