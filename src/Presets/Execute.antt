-- ===== src/Presets/Execute.antt =====
-- `get_preset_metadata`, `validate_simulation_parameters` and `execute_simulation` of
-- app/services/simulation.py.
use behaviour_sim_api.Base.{ℕ, ◌+◌, ◌/◌, Option, none, some, List, [], ◌∷◌, map, String, max}
use behaviour_sim_api.Dict.{get, Eq-Text}
use behaviour_sim_api.Store.Rows.{Text, Uuid, Records, text, points, texts}
use behaviour_sim_api.Store.Env.{Env, EngineRun, generated, rejected, crashed}
use behaviour_sim_api.Store.Action.{
  Error, api_error, Action, pure, raise, raise_if, modify, uuid4, ◌>>=◌, ◌>>◌,
}
use behaviour_sim_api.Presets.{
  PresetMeta, preset_names, supported_presets, normalize_preset_name, unknown, unsupported_preset,
  invalid_profile, invalid_initial_state,
}

-- One entry of the public list, which `get_preset_metadata` returns too.
pub record PresetSummary : Type 0 where
  pub name : Text
  pub description : String
  pub default_profile : String
  pub supported_profiles : List String
  pub supported_states : List String

abbrev summary : Text × PresetMeta → PresetSummary
summary (name, meta) = record {
  name = name;
  description = meta.description;
  default_profile = meta.default_profile;
  supported_profiles = meta.supported_profiles;
  supported_states = meta.supported_states;
}

unfoldable pub list_available_presets : List PresetSummary
unfolding supported_presets
list_available_presets = map summary supported_presets

unfoldable pub preset_not_found : Text → Error
preset_not_found preset = api_error (record {
  message = record {
    template = "Preset '{}' is not recognized. Supported presets: {}";
    values = points preset ∷ texts preset_names ∷ [];
  };
  status_code = 404;
  error_code = "preset_not_found";
  details = ("requested", points preset) ∷ ("supported", texts preset_names) ∷ [];
  headers = [];
})

unfoldable pub get_preset_metadata : Text → Action PresetSummary
get_preset_metadata preset_name s =
    elim (get (normalize_preset_name preset_name) supported_presets) [
      | none ↦ raise (preset_not_found preset_name) s
      | some meta ↦ pure (summary (normalize_preset_name preset_name, meta)) s
    ]

-- The checks of the profile and of the initial state.
unfoldable pub check_options : Text → PresetMeta → Option String → Option String → Action Text
check_options canonical meta profile initial_state = do
  raise_if (unknown profile meta.supported_profiles) (invalid_profile canonical meta profile)
  raise_if (unknown initial_state meta.supported_states)
      (invalid_initial_state canonical meta initial_state)
  pure canonical

unfoldable pub validate_simulation_parameters : Text → Option String → Option String → Action Text
validate_simulation_parameters preset profile initial_state s =
    elim (get (normalize_preset_name preset) supported_presets) [
      | none ↦ raise (unsupported_preset preset) s
      | some meta ↦ check_options (normalize_preset_name preset) meta profile initial_state s
    ]

unfoldable pub invalid_simulation_request : String → Error
invalid_simulation_request reason = api_error (record {
  message = record { template = "Invalid simulation parameters: {}"; values = text reason ∷ [] };
  status_code = 400;
  error_code = "invalid_simulation_request";
  details = ("reason", text reason) ∷ [];
  headers = [];
})

unfoldable pub simulation_generation_failed : Error
simulation_generation_failed = api_error (record {
  message = record {
    template = "Internal simulation generation failed. Please try again or contact support.";
    values = [];
  };
  status_code = 500;
  error_code = "simulation_generation_failed";
  details = [];
  headers = [];
})

-- `max(1, int(seconds * 1000))`
abbrev pub elapsed_ms : EngineRun → ℕ
elapsed_ms r = max 1 (r.elapsed / 1000)

-- How the call of `Simulator` ends.
unfoldable pub engine_outcome : EngineRun → Action (Records × ℕ)
engine_outcome r = elim r.result [
  | generated records ↦ pure (records, elapsed_ms r)
  | rejected reason ↦ raise (invalid_simulation_request reason)
  | crashed ↦ raise simulation_generation_failed
]

-- The id, the records and the milliseconds. The clock runs while the simulator does.
unfoldable pub execute_simulation :
    Env → Text → ℕ → Option ℕ → Option String → Option String → Action (Uuid × Records × ℕ)
execute_simulation env preset num_interactions seed profile initial_state = do
  canonical ← validate_simulation_parameters preset profile initial_state
  simulation_id ← uuid4
  let run = env.engine canonical num_interactions seed profile initial_state
  modify (λ s. record s { clock = s.clock + run.elapsed })
  (records, ms) ← engine_outcome run
  pure (simulation_id, records, ms)
