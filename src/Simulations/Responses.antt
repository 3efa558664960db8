-- ===== src/Simulations/Responses.antt =====
-- The caller of an endpoint (app/core/auth.py) and what a run is answered with
-- (app/api/v1/simulations.py).
use behaviour_sim_api.Base.{ℕ, Bool, Option, String}
use behaviour_sim_api.Store.Rows.{Text, Uuid, Instant, Records, Status, User, ApiKey, UserSession}

-- `AuthenticatedPrincipal` of app/core/auth.py.
pub record Principal : Type 0 where
  pub user : User
  pub authentication_method : String
  pub api_key : Option ApiKey
  pub session : Option UserSession

pub record SimulationMetadata : Type 0 where
  pub behaviorsim_version : String
  pub api_version : String
  pub compute_ms : ℕ
  pub reproducible : Bool

pub record SimulationResponse : Type 0 where
  pub simulation_id : Uuid
  pub preset : Text
  pub num_interactions : ℕ
  pub status : Status
  pub seed : Option ℕ
  pub records : Records  -- `data`
  pub metadata : SimulationMetadata

pub record SimulationPendingResponse : Type 0 where
  pub simulation_id : Uuid
  pub preset : Text
  pub num_interactions : ℕ
  pub status : Status
  pub seed : Option ℕ
  pub created_at : Instant
  pub updated_at : Instant

-- The responses with status 202 and 200.
pub data RunResponse : Type 0 where
  accepted : SimulationPendingResponse → RunResponse
  executed : SimulationResponse → RunResponse
