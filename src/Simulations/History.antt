-- ===== src/Simulations/History.antt =====
-- `list_simulations` of app/api/v1/simulations.py. The page is at least 1 and its size from 1 to
-- 100, as the parameters of the query demand.
use behaviour_sim_api.Base.{
  ℕ, ◌-◌, ◌*◌, Bool, true, ◌&&◌, ◌||◌, Option, none, some, List, [], ◌∷◌, String, map,
  ◌==◌ as nat_eq, ltb, leb, take, drop, select_where, count_where, sort_by,
}
use behaviour_sim_api.Dict.{Dict, get, text_eq, Eq-Text}
use behaviour_sim_api.Store.Rows.{
  Text, Uuid, Instant, Status, pending, running, completed, failed, Simulation, points, texts,
}
use behaviour_sim_api.Store.State.{State}
use behaviour_sim_api.Store.Action.{Error, api_error, Action, pure, raise, gets, ◌>>=◌}
use behaviour_sim_api.Presets.{codes, lower, strip, normalize_preset_name, supported_presets}
use behaviour_sim_api.Jobs.{status_eq}

pub record HistoryItem : Type 0 where
  pub simulation_id : Uuid
  pub preset : Text
  pub num_interactions : ℕ
  pub seed : Option ℕ
  pub profile : Option String
  pub initial_state : Option String
  pub status : Status
  pub compute_ms : Option ℕ
  pub reproducible : Bool
  pub behaviorsim_version : String
  pub api_version : String
  pub error_code : Option String
  pub created_at : Instant
  pub started_at : Option Instant
  pub completed_at : Option Instant
  pub updated_at : Instant

unfoldable pub history_item : Simulation → HistoryItem
history_item row = record {
  simulation_id = row.id;
  preset = row.preset;
  num_interactions = row.num_interactions;
  seed = row.seed;
  profile = row.profile;
  initial_state = row.initial_state;
  status = row.status;
  compute_ms = row.compute_ms;
  reproducible = row.reproducible;
  behaviorsim_version = row.behaviorsim_version;
  api_version = row.api_version;
  error_code = row.error_code;
  created_at = row.created_at;
  started_at = row.started_at;
  completed_at = row.completed_at;
  updated_at = row.updated_at;
}

pub record HistoryResponse : Type 0 where
  pub items : List HistoryItem
  pub page : ℕ
  pub page_size : ℕ
  pub total : ℕ
  pub has_next : Bool

abbrev pub status_names : Dict Text Status
status_names =
    (codes "pending", pending)
    ∷ (codes "running", running)
    ∷ (codes "completed", completed)
    ∷ (codes "failed", failed)
    ∷ []

abbrev allowed_presets : List String
allowed_presets = "education" ∷ "finance" ∷ "healthcare" ∷ "mobile" ∷ "mobile_app" ∷ []

unfoldable pub invalid_preset : Text → Error
invalid_preset preset = api_error (record {
  message = record {
    template = "Preset '{}' is not recognized. Supported presets: {}";
    values = points preset ∷ texts allowed_presets ∷ [];
  };
  status_code = 400;
  error_code = "invalid_preset";
  details = ("allowed_presets", texts allowed_presets) ∷ [];
  headers = [];
})

abbrev allowed_statuses : List String
allowed_statuses = "completed" ∷ "failed" ∷ "pending" ∷ "running" ∷ []

unfoldable pub invalid_status : Text → Error
invalid_status status_filter = api_error (record {
  message = record {
    template = "Status '{}' is not recognized. Allowed statuses: {}";
    values = points status_filter ∷ texts allowed_statuses ∷ [];
  };
  status_code = 400;
  error_code = "invalid_status";
  details = ("allowed_statuses", texts allowed_statuses) ∷ [];
  headers = [];
})

-- The clause that the preset filter adds.
unfoldable pub preset_clause : Option Text → Action (Simulation → Bool)
preset_clause none s = pure (λ j. true) s
preset_clause (some preset) s = elim (get (normalize_preset_name preset) supported_presets) [
  | none ↦ raise (invalid_preset preset) s
  | some _ ↦ pure (λ j. text_eq j.preset (normalize_preset_name preset)) s
]

-- The clause that the status filter adds.
unfoldable pub status_clause : Option Text → Action (Simulation → Bool)
status_clause none s = pure (λ j. true) s
status_clause (some status_filter) s = elim (get (lower (strip status_filter)) status_names) [
  | none ↦ raise (invalid_status status_filter) s
  | some status ↦ pure (λ j. status_eq j.status status) s
]

-- The `where` clause.
abbrev pub selected : Uuid → (Simulation → Bool) → (Simulation → Bool) → Simulation → Bool
selected user_id p q j = nat_eq j.user_id user_id && (p j && q j)

-- ORDER BY created_at DESC, id DESC
abbrev pub newer : Simulation → Simulation → Bool
newer j k = ltb k.created_at j.created_at || (nat_eq j.created_at k.created_at && leb k.id j.id)

-- The selected rows, newest first.
unfoldable pub history : Uuid → (Simulation → Bool) → (Simulation → Bool) → State → List Simulation
history user_id p q s = sort_by newer (select_where (selected user_id p q) s.simulations)

-- Steps 4 and 5, and the response.
unfoldable pub history_page :
    ℕ → ℕ → Uuid → (Simulation → Bool) → (Simulation → Bool) → State → HistoryResponse
history_page page page_size user_id p q s =
    let total = count_where (selected user_id p q) s.simulations in
    record {
      items =
          map history_item (take page_size (drop ((page - 1) * page_size) (history user_id p q s)));
      page = page;
      page_size = page_size;
      total = total;
      has_next = ltb (page * page_size) total;
    }

unfoldable pub list_simulations : ℕ → ℕ → Option Text → Option Text → Uuid → Action HistoryResponse
list_simulations page page_size preset status_filter user_id = do
  p ← preset_clause preset
  q ← status_clause status_filter
  gets (history_page page page_size user_id p q)
