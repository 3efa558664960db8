-- ===== src/Auth/Principals.antt =====
-- `get_current_principal` of app/core/auth.py: the caller of a request, by the bearer token of the
-- Authorization header or by the session cookie. A session has its user, by the foreign key.
use behaviour_sim_api.Base.{
  Bool, true, false, Option, none, some, String, is_empty, begins_with, if◌then◌else◌,
}
use behaviour_sim_api.Store.Rows.{Text, User, UserSession}
use behaviour_sim_api.Store.Action.{Action, crash, pure, raise, ◌>>=◌}
use behaviour_sim_api.Simulations.Responses.{Principal}
use behaviour_sim_api.Auth.Security.{AuthConfig}
use behaviour_sim_api.Auth.Keys.{get_user, validate_api_key}
use behaviour_sim_api.Auth.Sessions.{validate_session_token}

-- `HTTPException` with status 401: its detail, and whether it has `WWW-Authenticate: Bearer`.
pub data Authentication : Type 0 where
  authenticated : Principal → Authentication
  unauthorized : (detail : String) → (challenge : Bool) → Authentication

-- Case A. `validate_api_key` names active users only, and the code tests that again.
unfoldable pub key_authentication : Option Principal → Authentication
key_authentication none = unauthorized "Invalid or revoked API key." true
key_authentication (some p) =
    if p.user.is_active
    then authenticated (record {
      user = p.user;
      authentication_method = "api_key";
      api_key = p.api_key;
      session = none;
    })
    else unauthorized "User account is deactivated." false

abbrev pub session_principal : User → UserSession → Principal
session_principal user x = record {
  user = user;
  authentication_method = "session";
  api_key = none;
  session = some x;
}

-- Case B, and the cookie, with what they answer for a session that is not valid.
unfoldable pub session_authentication : AuthConfig → Text → Authentication → Action Authentication
session_authentication c token invalid s = elim (validate_session_token c token s) [
  | none ↦ pure invalid s
  | some x ↦ elim (get_user x.user_id s) [
    | none ↦ raise crash s
    | some user ↦
        if user.is_active then pure (authenticated (session_principal user x)) s else pure invalid s
  ]
]

-- Step 1, for a token.
unfoldable pub bearer_authentication : AuthConfig → Text → Action Authentication
bearer_authentication c token =
    if begins_with c.api_key_prefix token
    then (do p ← validate_api_key c token; pure (key_authentication p))
    else if begins_with c.session_token_prefix token
    then session_authentication c token (unauthorized "Invalid or expired session token." true)
    else pure (unauthorized "Unrecognized token format." true)

-- Step 2 and what follows it.
unfoldable pub cookie_authentication : AuthConfig → Option Text → Action Authentication
cookie_authentication c none = pure (unauthorized "Missing authentication credentials." true)
cookie_authentication c (some cookie) =
    if is_empty cookie
    then pure (unauthorized "Missing authentication credentials." true)
    else session_authentication c cookie (unauthorized "Invalid or expired session cookie." false)

unfoldable pub get_current_principal :
    AuthConfig → Option Text → Option Text → Action Authentication
get_current_principal c none cookie = cookie_authentication c cookie
get_current_principal c (some token) cookie =
    if is_empty token then cookie_authentication c cookie else bearer_authentication c token
