-- ===== src/Auth/Confirmation.antt =====
-- What the providers of app/auth/providers have answered to a code when they yield an identity.
use behaviour_sim_api.Base.{◌≡◌, ◌∙◌, ap, refl, inl, inr, arith, none, some, String, Option-cases}
use behaviour_sim_api.Store.Rows.{Text}
use behaviour_sim_api.Store.State.{State}
use behaviour_sim_api.Store.Action.{ok, ◌>>=◌}
use behaviour_sim_api.Store.Keeps.{bind-Keeps, Reads, Reads-inv}
use behaviour_sim_api.Auth.Identities.{ProviderIdentity}
use behaviour_sim_api.Auth.Providers.{
  answered, Remote, body_of, required, exchange_failed, GithubToken, github_payload,
  github_exchange_code, github_get_identity, google_exchange_code, google_get_identity,
}
use behaviour_sim_api.Auth.Answers.{
  GithubSays, GoogleSays, required-Reads, required_lem, body_of-Reads, body_of_lem, github_confirms,
  google_confirms,
}

-- The provider has given an access token for the code, and answered to it with this identity.
pub data Confirmed (remote : Remote) (code : Text) (identity : ProviderIdentity) : Type 0 where
  by_github :
      (payload : GithubToken) (token : String)
      → remote.github_token code ≡ answered 200 payload
      → payload.error ≡ none
      → payload.access_token ≡ some token
      → GithubSays remote token identity
      → Confirmed remote code identity
  by_google :
      (token : String)
      → remote.google_token code ≡ answered 200 (some token)
      → GoogleSays remote token identity
      → Confirmed remote code identity

google_exchange_code-Reads :
    (remote : Remote) (code : Text) → Reads (google_exchange_code remote code)
unfolding google_exchange_code
google_exchange_code-Reads remote code =
    let network =
      exchange_failed 502 "Network error communicating with Google authentication service." in
    let failed = exchange_failed 400 "Failed to exchange authorization code with Google." in
    let missing = exchange_failed 400 "Google token response missing access_token." in
    bind-Keeps (λ s. s) (body_of (remote.google_token code) network failed) (required missing)
      (body_of-Reads (remote.google_token code) network failed) (required-Reads missing)

github_payload_lem :
    (payload : GithubToken) (s : State) (token : String)
    → (github_payload payload s).0 ≡ ok token
    → (payload.error ≡ none) × (payload.access_token ≡ some token)
unfolding github_payload
github_payload_lem payload s token e = elim (Option-cases payload.error) [
  | inr (x, wrong) ↦ ground (arith, rw (wrong, github_payload) at e)
  | inl fine ↦ (
    fine,
    required_lem (exchange_failed 400 "GitHub token response missing access_token.")
        payload.access_token s token (rw (fine, github_payload) at e),
  )
]

github_payload-Reads : (payload : GithubToken) → Reads (github_payload payload)
unfolding github_payload
github_payload-Reads payload s = elim (Option-cases payload.error) [
  | inr (x, e) ↦ rw (github_payload, e) refl
  | inl e ↦
      rw (github_payload, e)
        (required-Reads (exchange_failed 400 "GitHub token response missing access_token.")
          payload.access_token s)
]

github_exchange_code-Reads :
    (remote : Remote) (code : Text) → Reads (github_exchange_code remote code)
unfolding github_exchange_code
github_exchange_code-Reads remote code =
    let network =
      exchange_failed 502 "Network error communicating with GitHub authentication service." in
    let failed = exchange_failed 400 "Failed to exchange authorization code with GitHub." in
    bind-Keeps (λ s. s) (body_of (remote.github_token code) network failed) github_payload
      (body_of-Reads (remote.github_token code) network failed) github_payload-Reads

module _ (remote : Remote) (s t : State) (code : Text) (identity : ProviderIdentity) where
  pub github_lem :
      (github_exchange_code remote code >>= github_get_identity remote) s ≡ (ok identity, t)
      → Confirmed remote code identity × (identity.provider ≡ "github") × (t ≡ s)
  unfolding github_exchange_code
  github_lem e =
      let network =
        exchange_failed 502 "Network error communicating with GitHub authentication service." in
      let failed = exchange_failed 400 "Failed to exchange authorization code with GitHub." in
      let body = body_of (remote.github_token code) network failed in
      let (token, exchanged, e1) =
        Reads-inv (github_exchange_code remote code) (github_get_identity remote) s identity t
          (github_exchange_code-Reads remote code) e in
      let (payload, got, e2) =
        Reads-inv body github_payload s token s
          (body_of-Reads (remote.github_token code) network failed)
          (λ i. (exchanged i, github_exchange_code-Reads remote code s i)) in
      let (says, same) = github_confirms remote s t token identity e1 in
      let (fine, is_token) = github_payload_lem payload s token (ap (λ q. q.0) e2) in
      (
        by_github payload token (body_of_lem _ _ _ s payload got) fine is_token says,
        says.provider,
        same,
      )

  pub google_lem :
      (google_exchange_code remote code >>= google_get_identity remote) s ≡ (ok identity, t)
      → Confirmed remote code identity × (identity.provider ≡ "google") × (t ≡ s)
  unfolding google_exchange_code
  google_lem e =
      let network =
        exchange_failed 502 "Network error communicating with Google authentication service." in
      let failed = exchange_failed 400 "Failed to exchange authorization code with Google." in
      let body = body_of (remote.google_token code) network failed in
      let missing = exchange_failed 400 "Google token response missing access_token." in
      let (token, exchanged, e1) =
        Reads-inv (google_exchange_code remote code) (google_get_identity remote) s identity t
          (google_exchange_code-Reads remote code) e in
      let (answer, got, e2) =
        Reads-inv body (required missing) s token s
          (body_of-Reads (remote.google_token code) network failed)
          (λ i. (exchanged i, google_exchange_code-Reads remote code s i)) in
      let (says, same) = google_confirms remote s t token identity e1 in
      let is_token = required_lem missing answer s token (ap (λ q. q.0) e2) in
      (
        by_google token (body_of_lem _ _ _ s answer got ∙ ap (λ o. answered 200 o) is_token) says,
        says.provider,
        same,
      )
