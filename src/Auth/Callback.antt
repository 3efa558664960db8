-- ===== src/Auth/Callback.antt =====
-- `oauth_callback` and `logout` of app/api/v1/auth.py. The answer of the callback is the value of the
-- session cookie; the redirect goes to a fixed address, and the cookies' other settings are left out.
-- `hmac.compare_digest` raises on texts with characters outside ASCII.
use behaviour_sim_api.Base.{
  Bool, true, ◌&&◌, not, Option, none, some, [], ◌∷◌, str_eq, ltb, is_empty, if◌then◌else◌,
}
use behaviour_sim_api.Dict.{text_eq}
use behaviour_sim_api.Store.Rows.{Text, User, points}
use behaviour_sim_api.Store.Action.{Error, crash, Action, pure, raise, raise_if, ◌>>=◌, ◌>>◌}
use behaviour_sim_api.Presets.{codes, lower}
use behaviour_sim_api.Jobs.{plain}
use behaviour_sim_api.Simulations.Responses.{Principal}
use behaviour_sim_api.Auth.Security.{AuthConfig}
use behaviour_sim_api.Auth.Identities.{ProviderIdentity, resolve_or_create_user_identity}
use behaviour_sim_api.Auth.Sessions.{create_user_session, save_session}
use behaviour_sim_api.Auth.Providers.{
  Remote, oauth_error, github_exchange_code, github_get_identity, google_exchange_code,
  google_get_identity,
}

pub data Provider : Type 0 where
  google github : Provider

unfoldable pub unsupported_provider : Text → Error
unsupported_provider provider_name = oauth_error 400 "unsupported_provider" (record {
  template = "Unsupported OAuth provider: '{}'. Supported providers: google, github.";
  values = points provider_name ∷ [];
})

unfoldable pub get_oauth_provider : Text → Action Provider
get_oauth_provider provider_name =
    if text_eq (lower provider_name) (codes "google")
    then pure google
    else if text_eq (lower provider_name) (codes "github")
    then pure github
    else raise (unsupported_provider provider_name)

-- A parameter that is given and not empty.
abbrev pub given : Option Text → Option Text
given none = none
given (some x) = if is_empty x then none else some x

abbrev pub is_ascii : Text → Bool
is_ascii [] = true
is_ascii (c ∷ cs) = ltb c 128 && is_ascii cs

unfoldable pub compare_digest : Text → Text → Action Bool
compare_digest x y s = if is_ascii x && is_ascii y then pure (text_eq x y) s else raise crash s

abbrev pub invalid_oauth_state : Error
invalid_oauth_state =
    oauth_error 400 "invalid_oauth_state" (plain "Missing or invalid OAuth state parameter.")

-- Step 1: the state of the request is that of the cookie.
unfoldable pub check_state : Option Text → Option Text → Action (Unit {0})
check_state state cookie_state = elim (given state) [
  | none ↦ raise invalid_oauth_state
  | some x ↦ elim (given cookie_state) [
    | none ↦ raise invalid_oauth_state
    | some y ↦ compare_digest x y >>= λ same. raise_if (not same) invalid_oauth_state
  ]
]

abbrev pub no_provider_error : Option Text → Action (Unit {0})
no_provider_error error = elim (given error) [
  | none ↦ pure tt
  | some e ↦ raise (
      oauth_error 400 "oauth_provider_error"
        (record { template = "OAuth provider returned an error: {}"; values = points e ∷ [] }))
]

abbrev pub require_code : Option Text → Action Text
require_code code = elim (given code) [
  | none ↦ raise (
      oauth_error 400 "oauth_exchange_failed"
        (plain "Missing authorization code from OAuth provider."))
  | some x ↦ pure x
]

-- Step 2.
unfoldable pub identify : Remote → Provider → Text → Action ProviderIdentity
identify remote google code = google_exchange_code remote code >>= google_get_identity remote
identify remote github code = github_exchange_code remote code >>= github_get_identity remote

-- Step 4.
unfoldable pub issue_session : AuthConfig → Text → User → Action Text
issue_session c secret user = do
  (session, raw_session_token) ← create_user_session c secret user
  pure raw_session_token

-- Steps 3 and 4.
unfoldable pub sign_in : AuthConfig → Text → ProviderIdentity → Action Text
sign_in c secret identity = resolve_or_create_user_identity identity >>= issue_session c secret

-- What the query and the cookies of the request give.
pub record CallbackRequest : Type 0 where
  pub provider : Text
  pub code : Option Text
  pub state : Option Text
  pub error : Option Text
  pub cookie_state : Option Text

-- What follows the checks.
unfoldable pub callback_with_code : AuthConfig → Remote → Text → Provider → Text → Action Text
callback_with_code c remote secret provider code =
    identify remote provider code >>= sign_in c secret

unfoldable pub callback_checked :
    AuthConfig → Remote → Text → CallbackRequest → Provider → Action Text
callback_checked c remote secret request provider =
    require_code request.code >>= callback_with_code c remote secret provider

unfoldable pub callback_from : AuthConfig → Remote → Text → CallbackRequest → Provider → Action Text
callback_from c remote secret request provider =
    no_provider_error request.error
    >> (check_state request.state request.cookie_state
        >> callback_checked c remote secret request provider)

unfoldable pub oauth_callback : AuthConfig → Remote → Text → CallbackRequest → Action Text
oauth_callback c remote secret request =
    get_oauth_provider request.provider >>= callback_from c remote secret request

unfoldable pub logout : Principal → Action (Unit {0})
logout principal s =
    if str_eq principal.authentication_method "session"
    then elim principal.session [
      | none ↦ pure tt s
      | some session ↦ pure tt (save_session (record session { revoked_at = some s.clock }) s)
    ]
    else pure tt s
