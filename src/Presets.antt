-- ===== src/Presets.antt =====
-- app/services/simulation.py: the table of presets, its validation, and the call of the
-- `behaviorsim` package. Names are code points; `lower` changes the ASCII capitals, and `strip` takes
-- off the white space below U+0100.
pub mod Execute
pub mod Spelling
pub mod Names
pub mod Validity
use behaviour_sim_api.Base.{
  is_empty, ℕ, ◌+◌, ◌/◌, ◌≡◌, Bool, true, false, ◌&&◌, ◌||◌, not, Option, none, some, List, [], ◌∷◌,
  map, String, code, max, leb, str_eq, is_some, if◌then◌else◌,
}
use behaviour_sim_api.Dict.{Dict, get, ◌==◌, Eq-ℕ, Eq-String, Eq-Text}
use behaviour_sim_api.Store.Rows.{Text, Uuid, Records, Datum, text, points, texts}
use behaviour_sim_api.Store.State.{State}
use behaviour_sim_api.Store.Env.{Env, EngineRun, EngineResult, generated, rejected, crashed}
use behaviour_sim_api.Store.Action.{
  Error, api_error, Action, pure, raise, raise_if, modify, uuid4, ◌>>=◌, ◌>>◌,
}

-- The code points of a text.
abbrev pub codes : String → Text
codes String.[] = []
codes (String.◌∷◌ c s) = code c ∷ codes s

pub record PresetMeta : Type 0 where
  pub canonical_name : Text
  pub description : String
  pub default_profile : String
  pub supported_profiles : List String
  pub supported_states : List String

unfoldable pub supported_presets : Dict Text PresetMeta
supported_presets =
    (
      codes "education",
      record {
        canonical_name = codes "education";
        description =
            "Adaptive learning telemetry modeling cognitive load, accuracy, response times, and student mastery.";
        default_profile = "average";
        supported_profiles =
            "average" ∷ "fast_accurate" ∷ "fast_inaccurate" ∷ "slow_accurate" ∷ "slow_inaccurate"
            ∷ [];
        supported_states = "Optimal" ∷ "Overload" ∷ "Underload" ∷ [];
      },
    )
    ∷ (
      codes "finance",
      record {
        canonical_name = codes "finance";
        description =
            "Synthetic behavioral telemetry for financial trading, risk alerts, drawdowns, and portfolio volatility.";
        default_profile = "balanced_investor";
        supported_profiles =
            "conservative_investor" ∷ "balanced_investor" ∷ "growth_investor" ∷ "active_trader"
            ∷ [];
        supported_states =
            "Stable" ∷ "Active" ∷ "Volatile" ∷ "Drawdown" ∷ "Recovered" ∷ "Closed" ∷ [];
      },
    )
    ∷ (
      codes "healthcare",
      record {
        canonical_name = codes "healthcare";
        description =
            "Synthetic patient monitoring telemetry tracking vital trends, alerts, and mobility trajectories.";
        default_profile = "stable_patient";
        supported_profiles =
            "stable_patient" ∷ "chronic_risk" ∷ "post_operative" ∷ "geriatric_frail" ∷ [];
        supported_states = "Baseline" ∷ "Elevated" ∷ "Critical" ∷ "Recovery" ∷ "Discharged" ∷ [];
      },
    )
    ∷ (
      codes "mobile_app",
      record {
        canonical_name = codes "mobile_app";
        description =
            "User engagement simulation tracking session duration, navigation depth, actions, and checkout flows.";
        default_profile = "casual_browser";
        supported_profiles =
            "power_user" ∷ "casual_browser" ∷ "deal_seeker" ∷ "infrequent_visitor" ∷ [];
        supported_states = "Browsing" ∷ "ActiveSession" ∷ "CheckoutFlow" ∷ "Idle" ∷ "Churned" ∷ [];
      },
    )
    ∷ []

abbrev pub preset_aliases : Dict Text Text
preset_aliases = (codes "mobile", codes "mobile_app") ∷ []

abbrev pub is_space : ℕ → Bool
is_space c = (leb 9 c && leb c 13) || (leb 28 c && leb c 32) || c == 133 || c == 160

unfoldable pub lstrip : Text → Text
lstrip [] = []
lstrip (c ∷ cs) = let rest = lstrip cs in if is_space c then rest else c ∷ cs

unfoldable pub rstrip : Text → Text
rstrip [] = []
rstrip (c ∷ cs) = let rest = rstrip cs in if is_space c && is_empty rest then [] else c ∷ rest

unfoldable pub strip : Text → Text
unfolding lstrip rstrip
strip s = rstrip (lstrip s)

unfoldable pub lower_char : ℕ → ℕ
lower_char c = if leb b'A' c && leb c b'Z' then c + 32 else c

unfoldable pub lower : Text → Text
unfolding lower_char
lower [] = []
lower (c ∷ cs) = lower_char c ∷ lower cs

-- `PRESET_ALIASES.get(cleaned, cleaned)`
unfoldable pub resolve_alias : Text → Text
resolve_alias cleaned = elim (get cleaned preset_aliases) [ none ↦ cleaned | some name ↦ name ]

unfoldable pub normalize_preset_name : Text → Text
unfolding strip lower resolve_alias
normalize_preset_name preset_name = resolve_alias (lower (strip preset_name))

abbrev pub contains : String → List String → Bool
contains x [] = false
contains x (y ∷ ys) = str_eq x y || contains x ys

-- `x is not None and x not in allowed`
abbrev pub unknown : Option String → List String → Bool
unknown none allowed = false
unknown (some x) allowed = not (contains x allowed)

abbrev pub preset_names : List String
preset_names = "education" ∷ "finance" ∷ "healthcare" ∷ "mobile_app" ∷ "mobile" ∷ []

unfoldable pub unsupported_preset : Text → Error
unsupported_preset preset = api_error (record {
  message = record {
    template = "Unsupported preset '{}'. Available presets: {}";
    values = points preset ∷ texts preset_names ∷ [];
  };
  status_code = 400;
  error_code = "unsupported_preset";
  details = ("requested", points preset) ∷ ("supported", texts preset_names) ∷ [];
  headers = [];
})

abbrev optional_text : Option String → Datum
optional_text none = text ""
optional_text (some x) = text x

unfoldable pub invalid_profile : Text → PresetMeta → Option String → Error
invalid_profile preset meta profile = api_error (record {
  message = record {
    template = "Unknown profile '{}' for preset '{}'. Supported: {}";
    values = optional_text profile ∷ points preset ∷ texts meta.supported_profiles ∷ [];
  };
  status_code = 400;
  error_code = "invalid_profile";
  details =
      ("preset", points preset)
      ∷ ("requested_profile", optional_text profile)
      ∷ ("supported_profiles", texts meta.supported_profiles)
      ∷ [];
  headers = [];
})

unfoldable pub invalid_initial_state : Text → PresetMeta → Option String → Error
invalid_initial_state preset meta initial_state = api_error (record {
  message = record {
    template = "Unknown initial_state '{}' for preset '{}'. Supported: {}";
    values = optional_text initial_state ∷ points preset ∷ texts meta.supported_states ∷ [];
  };
  status_code = 400;
  error_code = "invalid_initial_state";
  details =
      ("preset", points preset)
      ∷ ("requested_initial_state", optional_text initial_state)
      ∷ ("supported_states", texts meta.supported_states)
      ∷ [];
  headers = [];
})
