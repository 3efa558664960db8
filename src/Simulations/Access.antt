-- ===== src/Simulations/Access.antt =====
-- `get_simulation` and `delete_simulation` of app/api/v1/simulations.py.
use behaviour_sim_api.Base.{
  ℕ, Bool, false, ◌&&◌, Option, none, some, [], ◌∷◌, String, ◌==◌, find_first, delete_where,
  if◌then◌else◌,
}
use behaviour_sim_api.Store.Rows.{
  Text, Uuid, Instant, Records, Status, pending, running, completed, Simulation, Message, status,
  text,
}
use behaviour_sim_api.Store.State.{State}
use behaviour_sim_api.Store.Env.{Env}
use behaviour_sim_api.Store.Action.{
  Error, api_error, Action, pure, raise, raise_if, modify, ◌>>=◌, ◌>>◌,
}
use behaviour_sim_api.Usage.{refund_usage, record_usage_result}
use behaviour_sim_api.Jobs.{status_eq}
use behaviour_sim_api.Simulations.Responses.{Principal, SimulationMetadata}

pub record SimulationDetail : Type 0 where
  pub simulation_id : Uuid
  pub preset : Text
  pub num_interactions : ℕ
  pub seed : Option ℕ
  pub profile : Option String
  pub initial_state : Option String
  pub status : Status
  pub records : Option Records  -- `data`
  pub metadata : Option SimulationMetadata
  pub error_code : Option String
  pub error_message : Option Message
  pub created_at : Instant
  pub started_at : Option Instant
  pub completed_at : Option Instant
  pub updated_at : Instant

unfoldable pub simulation_not_found : String → Error
simulation_not_found simulation_id = api_error (record {
  message = record { template = "Simulation '{}' not found."; values = text simulation_id ∷ [] };
  status_code = 404;
  error_code = "simulation_not_found";
  details = [];
  headers = [];
})

unfoldable pub cannot_delete_running_simulation : String → Status → Error
cannot_delete_running_simulation simulation_id current = api_error (record {
  message = record {
    template = "Cannot delete simulation '{}' while it is currently running.";
    values = text simulation_id ∷ [];
  };
  status_code = 409;
  error_code = "cannot_delete_running_simulation";
  details = ("status", status current) ∷ [];
  headers = [];
})

-- Steps 1 and 2 of both endpoints: the row with the id that belongs to the caller.
abbrev pub owned_by : Uuid → Uuid → Simulation → Bool
owned_by user_id id j = j.id == id && j.user_id == user_id

unfoldable pub find_owned : Env → Uuid → String → Action Simulation
find_owned env user_id simulation_id s = elim (env.uuid_of simulation_id) [
  | none ↦ raise (simulation_not_found simulation_id) s
  | some id ↦ elim (find_first (owned_by user_id id) s.simulations) [
    | none ↦ raise (simulation_not_found simulation_id) s
    | some sim ↦ pure sim s
  ]
]

-- Only a completed run with a time has metadata.
unfoldable pub metadata_of : Simulation → Option SimulationMetadata
metadata_of sim = elim sim.compute_ms [
  | none ↦ none
  | some ms ↦
      if status_eq sim.status completed
      then some (record {
        behaviorsim_version = sim.behaviorsim_version;
        api_version = sim.api_version;
        compute_ms = ms;
        reproducible = sim.reproducible;
      })
      else none
]

unfoldable pub detail : Simulation → SimulationDetail
detail sim = record {
  simulation_id = sim.id;
  preset = sim.preset;
  num_interactions = sim.num_interactions;
  seed = sim.seed;
  profile = sim.profile;
  initial_state = sim.initial_state;
  status = sim.status;
  records = sim.result_data;
  metadata = metadata_of sim;
  error_code = sim.error_code;
  error_message = sim.error_message;
  created_at = sim.created_at;
  started_at = sim.started_at;
  completed_at = sim.completed_at;
  updated_at = sim.updated_at;
}

unfoldable pub get_simulation : Env → Principal → String → Action SimulationDetail
get_simulation env principal simulation_id = do
  sim ← find_owned env principal.user.id simulation_id
  pure (detail sim)

-- `db.delete(sim); db.commit()`
abbrev pub remove_job : Uuid → State → State
remove_job id s = record s { simulations = delete_where (λ j. j.id == id) s.simulations }

-- Step 4.
unfoldable pub refund_pending : Env → Principal → Simulation → Action (Unit {0})
refund_pending env principal sim s =
    if status_eq sim.status pending
    then (do
      refund_usage env none (some sim.user_id) sim.num_interactions 1
      record_usage_result (some principal.user) none "simulation_failed" false 0 (some 0) none)
        s
    else pure tt s

-- Steps 3 to 5, for a row that was found.
unfoldable pub delete_found : Env → Principal → String → Simulation → Action (Unit {0})
delete_found env principal simulation_id sim = do
  raise_if (status_eq sim.status running)
      (cannot_delete_running_simulation simulation_id sim.status)
  refund_pending env principal sim
  modify (remove_job sim.id)

unfoldable pub delete_simulation : Env → Principal → String → Action (Unit {0})
delete_simulation env principal simulation_id =
    find_owned env principal.user.id simulation_id >>= delete_found env principal simulation_id
