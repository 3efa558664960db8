-- ===== src/Auth/SignIn.antt =====
-- Who gets a session by `oauth_callback` of app/api/v1/auth.py.
use behaviour_sim_api.Base.{
  ◌≡◌, ◌∙◌, ap, sym, refl, inl, inr, arith, String, false, ◌&&◌, Option, none, some, Bool-cases,
  Option-cases, is_empty,
}
use behaviour_sim_api.Dict.{text_eq, text_eq_iff}
use behaviour_sim_api.Store.Rows.{Text, User, UserSession}
use behaviour_sim_api.Store.State.{State}
use behaviour_sim_api.Store.Action.{ok, ◌>>◌, bind_inv, pure}
use behaviour_sim_api.Store.Keeps.{Reads, Reads-inv}
use behaviour_sim_api.Presets.{codes, lower}
use behaviour_sim_api.Auth.Security.{AuthConfig}
use behaviour_sim_api.Auth.Identities.{ProviderIdentity, resolve_or_create_user_identity}
use behaviour_sim_api.Auth.Sessions.{create_user_session}
use behaviour_sim_api.Auth.Providers.{Remote}
use behaviour_sim_api.Auth.Callback.{
  Provider, google, github, get_oauth_provider, given, compare_digest, is_ascii, check_state,
  no_provider_error, require_code, identify, issue_session, sign_in, callback_with_code,
  callback_checked, callback_from, CallbackRequest, oauth_callback,
}
use behaviour_sim_api.Auth.Confirmation.{Confirmed, github_lem, google_lem}

given_lem : (o : Option Text) (x : Text) → given o ≡ some x → (o ≡ some x) × (is_empty x ≡ false)
given_lem none x e = cc
given_lem (some y) x e = elim (Bool-cases (is_empty y)) [
  | inl n ↦ ground (arith, e, n)
  | inr n ↦
      let same : y ≡ x = ground (arith, e, n) in (ap (λ z. some z) same, sym (ap is_empty same) ∙ n)
]

module _ (state cookie_state : Option Text) (s : State) where
  check_state-same : (check_state state cookie_state s).1 ≡ s
  unfolding check_state compare_digest
  check_state-same = elim (Option-cases (given state)) [
    | inl e ↦ rw (check_state, e) refl
    | inr (x, e) ↦ elim (Option-cases (given cookie_state)) [
      | inl f ↦ rw (check_state, e, f) refl
      | inr (y, f) ↦ elim (Bool-cases (is_ascii x && is_ascii y)) [
        | inl a ↦ rw (check_state, e, f, compare_digest, a) refl
        | inr a ↦ rw (check_state, e, f, compare_digest, a) refl
      ]
    ]
  ]

  -- The check passes only a state that the cookie has too.
  check_state_lem :
      (check_state state cookie_state s).0 ≡ ok tt
      → (x : Text) × (state ≡ some x) × (cookie_state ≡ some x) × (is_empty x ≡ false)
  unfolding check_state compare_digest
  check_state_lem e = elim (Option-cases (given state)) [
    | inl f ↦ ground (arith, e, f)
    | inr (x, f) ↦ elim (Option-cases (given cookie_state)) [
      | inl g ↦ ground (arith, e, f, g)
      | inr (y, g) ↦
          let (is_x, nonempty) = given_lem state x f in
          let (is_y, _) = given_lem cookie_state y g in
          let same : x ≡ y = ground (arith, e, f, g, text_eq_iff x y) in
          (x, is_x, is_y ∙ ap (λ z. some z) (sym same), nonempty)
    ]
  ]

get_oauth_provider-Reads : (name : Text) → Reads (get_oauth_provider name)
unfolding get_oauth_provider
get_oauth_provider-Reads name s = elim (Bool-cases (text_eq (lower name) (codes "google"))) [
  | inl e ↦ rw (get_oauth_provider, e) refl
  | inr e ↦ elim (Bool-cases (text_eq (lower name) (codes "github"))) [
    | inl f ↦ rw (get_oauth_provider, e, f) refl
    | inr f ↦ rw (get_oauth_provider, e, f) refl
  ]
]

no_provider_error-Reads : (error : Option Text) → Reads (no_provider_error error)
no_provider_error-Reads error s = elim (Option-cases (given error)) [
  | inl e ↦ rw (no_provider_error, e) refl
  | inr (x, e) ↦ rw (no_provider_error, e) refl
]

require_code-Reads : (code : Option Text) → Reads (require_code code)
require_code-Reads code s = elim (Option-cases (given code)) [
  | inl e ↦ rw (require_code, e) refl
  | inr (x, e) ↦ rw (require_code, e) refl
]

abbrev name_of : Provider → String
name_of google = "google"
name_of github = "github"

-- The provider is the one that the address names.
get_oauth_provider_lem :
    (name : Text) (provider : Provider) (s : State)
    → (get_oauth_provider name s).0 ≡ ok provider
    → lower name ≡ codes (name_of provider)
unfolding get_oauth_provider
get_oauth_provider_lem name provider s e =
    elim (Bool-cases (text_eq (lower name) (codes "google"))) [
      | inl is_google ↦
          let same : google ≡ provider = ground (arith, rw (is_google, get_oauth_provider) at e) in
          rw (← same) ((text_eq_iff (lower name) (codes "google")).0 is_google)
      | inr other ↦ elim (Bool-cases (text_eq (lower name) (codes "github"))) [
        | inl is_github ↦
            let same : github ≡ provider =
              ground (arith, rw (other, is_github, get_oauth_provider) at e) in
            rw (← same) ((text_eq_iff (lower name) (codes "github")).0 is_github)
        | inr unsupported ↦ ground (arith, rw (other, unsupported, get_oauth_provider) at e)
      ]
    ]

identify_lem :
    (remote : Remote) (provider : Provider) (code : Text) (identity : ProviderIdentity)
    (s t : State)
    → identify remote provider code s ≡ (ok identity, t)
    → Confirmed remote code identity × (identity.provider ≡ name_of provider) × (t ≡ s)
unfolding identify
identify_lem remote google code identity s t e = google_lem remote s t code identity e
identify_lem remote github code identity s t e = github_lem remote s t code identity e

require_code_lem :
    (code : Option Text) (x : Text) (s : State)
    → (require_code code s).0 ≡ ok x
    → (code ≡ some x) × (is_empty x ≡ false)
require_code_lem code x s e = elim (Option-cases (given code)) [
  | inl n ↦ ground (arith, rw (n, require_code) at e)
  | inr (y, n) ↦
      let same : y ≡ x = ground (arith, rw (n, require_code) at e) in
      given_lem code x (n ∙ ap (λ z. some z) same)
]

-- A callback that succeeds has shown a state that is not empty in the query and in the cookie, and a
-- code that is not empty. The provider that its address names has given an access token for that code,
-- and has answered to it with an identity, its subject and an e-mail address that it calls verified, in
-- the form in which EmailStr takes it. The session that the callback returns the token of is a new one, of
-- the user whom that identity signs in.
pub oauth_callback_lem :
    (c : AuthConfig) (remote : Remote) (secret : Text) (request : CallbackRequest) (s t : State)
    (token : Text)
    → oauth_callback c remote secret request s ≡ (ok token, t)
    → ((x : Text) × (request.state ≡ some x)
        × (request.cookie_state ≡ some x)
        × (is_empty x ≡ false))
      × ((code : Text) × (request.code ≡ some code)
          × (is_empty code ≡ false)
          × (identity : ProviderIdentity) × Confirmed remote code identity
          × (lower request.provider ≡ codes identity.provider)
          × (user : User) × (u : State) × (resolve_or_create_user_identity identity s
              ≡ (ok user, u))
          × (session : UserSession) × (create_user_session c secret user u
              ≡ (ok (session, token), t)))
unfolding oauth_callback callback_from callback_checked callback_with_code sign_in issue_session
oauth_callback_lem c remote secret request s t token e =
    let (provider, named, e1) =
      Reads-inv (get_oauth_provider request.provider) (callback_from c remote secret request) s
        token t (get_oauth_provider-Reads request.provider) e in
    let check = check_state request.state request.cookie_state in
    let rest = callback_checked c remote secret request provider in
    let (_, _, e2) =
      Reads-inv (no_provider_error request.error) (λ _. check >> rest) s token t
        (no_provider_error-Reads request.error) e1 in
    let (_, checked, e3) =
      Reads-inv check (λ _. rest) s token t (check_state-same request.state request.cookie_state)
        e2 in
    let (code, has_code, e4) =
      Reads-inv (require_code request.code) (callback_with_code c remote secret provider) s token t
        (require_code-Reads request.code) e3 in
    let (asked, nonempty) = require_code_lem request.code code s has_code in
    let (identity, v, e5, e6) =
      bind_inv (identify remote provider code) (sign_in c secret) s token t e4 in
    let (confirmed, by, same) = identify_lem remote provider code identity s v e5 in
    let (user, u, e7, e8) =
      bind_inv (resolve_or_create_user_identity identity) (issue_session c secret) v token t e6 in
    let ((session, raw), w, e9, e10) =
      bind_inv (create_user_session c secret user) (λ (session, raw). pure raw) u token t e8 in
    let raw_is : raw ≡ token = ground (arith, ap (λ q. q.0) e10) in
    (
      check_state_lem request.state request.cookie_state s checked,
      (
        code,
        asked,
        nonempty,
        identity,
        confirmed,
        get_oauth_provider_lem request.provider provider s named ∙ ap codes (sym by),
        user,
        u,
        ap (resolve_or_create_user_identity identity) (sym same) ∙ e7,
        session,
        e9 ∙ (λ i. (ok (session, raw_is i), (e10 i).1)),
      ),
    )
