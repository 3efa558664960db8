-- ===== src/Auth/Providers.antt =====
-- The OAuth providers of app/auth/providers: what they make of the answers of GitHub and Google. The
-- answers are a parameter, parsed as JSON, a field that is missing being `none`; so is Pydantic's
-- `EmailStr`. The id of a GitHub user is its text. The URLs and the fields of the requests are left out.
use behaviour_sim_api.Base.{
  ℕ, Bool, ◌&&◌, not, Option, none, some, List, [], ◌∷◌, String, str_eq, ◌==◌, find_first,
  if◌then◌else◌,
}
use behaviour_sim_api.Store.Rows.{Text, text, Message}
use behaviour_sim_api.Store.Action.{
  Error, api_error, crash, Action, pure, raise, raise_if, ◌>>=◌, ◌>>◌,
}
use behaviour_sim_api.Jobs.{plain}
use behaviour_sim_api.Auth.Identities.{ProviderIdentity}

-- `httpx.RequestError`, or a status with a body.
pub data Reply (A : Type 0) : Type 0 where
  unreachable : Reply A
  answered : (status_code : ℕ) → (body : A) → Reply A

pub record GithubToken : Type 0 where
  pub error : Option String
  pub access_token : Option String

pub record GithubUser : Type 0 where
  pub id : Option String
  pub name : Option String
  pub login : Option String

pub record GithubEmail : Type 0 where
  pub email : Option String
  pub verified : Bool
  pub primary : Bool

pub record GoogleUser : Type 0 where
  pub sub : Option String
  pub email : Option String
  pub email_verified : Bool
  pub name : Option String

-- What the two services answer to a code or to an access token; and the form in which `EmailStr` takes
-- an address, if it does.
pub record Remote : Type 0 where
  pub github_token : Text → Reply GithubToken
  pub github_user : String → Reply GithubUser
  pub github_emails : String → Reply (List GithubEmail)
  pub google_token : Text → Reply (Option String)
  pub google_user : String → Reply GoogleUser
  pub email_str : String → Option String

unfoldable pub oauth_error : ℕ → String → Message → Error
oauth_error status_code code message = api_error (record {
  message = message;
  status_code = status_code;
  error_code = code;
  details = [];
  headers = [];
})

abbrev pub exchange_failed : ℕ → String → Error
exchange_failed status_code message =
    oauth_error status_code "oauth_exchange_failed" (plain message)

abbrev pub identity_failed : ℕ → String → Error
identity_failed status_code message =
    oauth_error status_code "oauth_identity_failed" (plain message)

-- A text that is given and not empty.
abbrev pub truthy : Option String → Option String
truthy none = none
truthy (some x) = if str_eq x "" then none else some x

abbrev pub required : Error → Option String → Action String
required e o = elim (truthy o) [ none ↦ raise e | some x ↦ pure x ]

-- The body of an answer with status 200.
unfoldable pub body_of : {A : Type 0} → Reply A → Error → Error → Action A
body_of unreachable network failed = raise network
body_of (answered status_code body) network failed = do
  raise_if (not (status_code == 200)) failed
  pure body

-- The access token in the payload.
unfoldable pub github_payload : GithubToken → Action String
github_payload payload = elim payload.error [
  | some e ↦ raise (
      oauth_error 400 "oauth_exchange_failed"
        (record { template = "GitHub OAuth error: {}"; values = text e ∷ [] }))
  | none ↦
      required (exchange_failed 400 "GitHub token response missing access_token.")
        payload.access_token
]

unfoldable pub github_exchange_code : Remote → Text → Action String
github_exchange_code remote code =
    body_of (remote.github_token code)
      (exchange_failed 502 "Network error communicating with GitHub authentication service.")
      (exchange_failed 400 "Failed to exchange authorization code with GitHub.")
    >>= github_payload

-- The first address that is verified and primary.
unfoldable pub primary_email : List GithubEmail → Option String
primary_email emails = elim (find_first (λ e. e.verified && e.primary) emails) [
  | none ↦ none
  | some e ↦ truthy e.email
]

-- The first address that is verified.
unfoldable pub verified_email : List GithubEmail → Option String
verified_email emails = elim (find_first (λ e. e.verified) emails) [
  | none ↦ none
  | some e ↦ truthy e.email
]

unfoldable pub choose_email : List GithubEmail → Option String
choose_email emails = elim (primary_email emails) [
  | none ↦ verified_email emails
  | some email ↦ some email
]

-- `ProviderIdentity(...)`, which raises where `EmailStr` refuses the address.
unfoldable pub validated : Remote → String → (String → ProviderIdentity) → Action ProviderIdentity
validated remote email make = elim (remote.email_str email) [
  | none ↦ raise crash
  | some address ↦ pure (make address)
]

abbrev pub github_network : Error
github_network = identity_failed 502 "Network error communicating with GitHub API."

abbrev pub github_identity : GithubUser → String → String → ProviderIdentity
github_identity user subject email = record {
  provider = "github";
  provider_subject = subject;
  email = email;
  display_name = elim (truthy user.name) [ none ↦ user.login | some name ↦ some name ];
}

-- The rest of `get_identity`, once the addresses are known.
unfoldable pub github_from_emails :
    Remote → GithubUser → String → List GithubEmail → Action ProviderIdentity
github_from_emails remote user subject emails = do
  email ←
      required (identity_failed 400 "No verified email address found on GitHub account.")
        (choose_email emails)
  validated remote email (github_identity user subject)

unfoldable pub github_from_subject : Remote → String → GithubUser → String → Action ProviderIdentity
github_from_subject remote access_token user subject =
    body_of (remote.github_emails access_token) github_network
      (identity_failed 400 "Failed to retrieve verified email from GitHub.")
    >>= github_from_emails remote user subject

unfoldable pub github_from_user : Remote → String → GithubUser → Action ProviderIdentity
github_from_user remote access_token user =
    required (identity_failed 400 "GitHub user profile missing identifier.") user.id
    >>= github_from_subject remote access_token user

unfoldable pub github_get_identity : Remote → String → Action ProviderIdentity
github_get_identity remote access_token =
    body_of (remote.github_user access_token) github_network
      (identity_failed 400 "Failed to retrieve user profile from GitHub.")
    >>= github_from_user remote access_token

unfoldable pub google_exchange_code : Remote → Text → Action String
google_exchange_code remote code =
    body_of (remote.google_token code)
      (exchange_failed 502 "Network error communicating with Google authentication service.")
      (exchange_failed 400 "Failed to exchange authorization code with Google.")
    >>= required (exchange_failed 400 "Google token response missing access_token.")

abbrev pub google_incomplete : Error
google_incomplete =
    identity_failed 400 "Google identity response missing required subject or email."

abbrev pub google_identity : GoogleUser → String → String → ProviderIdentity
google_identity profile sub email = record {
  provider = "google";
  provider_subject = sub;
  email = email;
  display_name = profile.name;
}

unfoldable pub google_from_email : Remote → GoogleUser → String → String → Action ProviderIdentity
google_from_email remote profile sub email =
    raise_if (not profile.email_verified)
      (identity_failed 400 "Google email address is not verified.")
    >> validated remote email (google_identity profile sub)

unfoldable pub google_from_sub : Remote → GoogleUser → String → Action ProviderIdentity
google_from_sub remote profile sub =
    required google_incomplete profile.email >>= google_from_email remote profile sub

unfoldable pub google_from_user : Remote → GoogleUser → Action ProviderIdentity
google_from_user remote profile =
    required google_incomplete profile.sub >>= google_from_sub remote profile

unfoldable pub google_get_identity : Remote → String → Action ProviderIdentity
google_get_identity remote access_token =
    body_of (remote.google_user access_token)
      (identity_failed 502 "Network error communicating with Google userinfo service.")
      (identity_failed 400 "Failed to retrieve user profile from Google.")
    >>= google_from_user remote
