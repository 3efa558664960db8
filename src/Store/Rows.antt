-- ===== src/Store/Rows.antt =====
-- The tables of app/db/models, a record for each row. A UUID is a number, a `datetime` is the
-- number of microseconds since the epoch, and a JSON value is a list of named cells.
use behaviour_sim_api.Base.{ℕ, String, Bool, Option, List}

abbrev pub Uuid : Type 0
Uuid = ℕ

abbrev pub Instant : Type 0
Instant = ℕ

-- The code points of a text whose characters the code looks at.
abbrev pub Text : Type 0
Text = List ℕ

-- The values of a result record, as JSON holds them; a float is its bit pattern.
pub data Cell : Type 0 where
  null : Cell
  flag : Bool → Cell
  integer : ℕ → Cell
  float : ℕ → Cell
  string : String → Cell

abbrev pub Records : Type 0
Records = List (List (String × Cell))

-- The lifecycle statuses that app/services/simulation_job.py names.
pub data Status : Type 0 where
  pending running completed failed : Status

-- The values that error details and messages hold.
pub data Datum : Type 0 where
  number : ℕ → Datum
  text : String → Datum
  points : Text → Datum
  status : Status → Datum
  texts : List String → Datum

-- A message is its template with the values that the f-string puts in, in order.
pub record Message : Type 0 where
  pub template : String
  pub values : List Datum

pub record Plan : Type 0 where
  pub id : Uuid
  pub name : String
  pub monthly_requests : ℕ
  pub monthly_interactions : ℕ
  pub max_interactions_per_request : ℕ
  pub requests_per_minute : ℕ
  pub max_concurrent_simulations : ℕ
  pub max_api_keys : ℕ
  pub calibration_enabled : Bool
  pub large_exports_enabled : Bool
  pub created_at : Instant
  pub updated_at : Instant

pub record User : Type 0 where
  pub id : Uuid
  pub email : String
  pub display_name : Option String
  pub is_active : Bool
  pub plan_id : Uuid
  pub created_at : Instant
  pub updated_at : Instant

pub record Simulation : Type 0 where
  pub id : Uuid
  pub user_id : Uuid
  pub preset : Text
  pub num_interactions : ℕ
  pub seed : Option ℕ
  pub profile : Option String
  pub initial_state : Option String
  pub status : Status
  pub result_storage : String
  pub result_location : Option String
  pub result_data : Option Records
  pub behaviorsim_version : String
  pub api_version : String
  pub compute_ms : Option ℕ
  pub reproducible : Bool
  pub error_code : Option String
  pub error_message : Option Message
  pub created_at : Instant
  pub started_at : Option Instant
  pub completed_at : Option Instant
  pub updated_at : Instant
  pub worker_id : Option String
  pub claimed_at : Option Instant
  pub heartbeat_at : Option Instant
  pub attempt_count : ℕ
  pub max_attempts : ℕ

pub record MonthlyUsage : Type 0 where
  pub id : Uuid
  pub user_id : Uuid
  pub period_start : Instant
  pub request_count : ℕ
  pub interaction_count : ℕ
  pub created_at : Instant
  pub updated_at : Instant

pub record UsageEvent : Type 0 where
  pub id : Uuid
  pub user_id : Option Uuid
  pub api_key_id : Option Uuid
  pub event_type : String
  pub request_id : Option String
  pub interaction_count : ℕ
  pub compute_ms : Option ℕ
  pub success : Bool
  pub created_at : Instant
  pub metadata_json : Option String

pub record ApiKey : Type 0 where
  pub id : Uuid
  pub user_id : Uuid
  pub name : String
  pub key_prefix : Text
  pub key_hash : Text
  pub is_active : Bool
  pub created_at : Instant
  pub last_used_at : Option Instant
  pub revoked_at : Option Instant

pub record UserSession : Type 0 where
  pub id : Uuid
  pub user_id : Uuid
  pub token_hash : Text
  pub created_at : Instant
  pub expires_at : Instant
  pub revoked_at : Option Instant

pub record AuthIdentity : Type 0 where
  pub id : Uuid
  pub user_id : Uuid
  pub provider : String
  pub provider_subject : String
  pub created_at : Instant
  pub updated_at : Instant
