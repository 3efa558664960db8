-- ===== src/Auth/Credentials.antt =====
-- What a caller that `get_current_principal` of app/core/auth.py names has presented.
use behaviour_sim_api.Base.{
  String, ◌≡◌, ◌⊎◌, inl, inr, arith, Bool, true, false, Option, some, Bool-cases, Option-cases,
  is_empty, begins_with,
}
use behaviour_sim_api.Store.Rows.{Text, User, ApiKey, UserSession}
use behaviour_sim_api.Store.State.{State}
use behaviour_sim_api.Store.Action.{ok, pure, ◌>>=◌}
use behaviour_sim_api.Simulations.Responses.{Principal}
use behaviour_sim_api.Auth.Security.{AuthConfig}
use behaviour_sim_api.Auth.Keys.{get_user, validate_api_key}
use behaviour_sim_api.Auth.KeyLimits.{KeyRows}
use behaviour_sim_api.Auth.KeyChecks.{Live, key_principal, validate_api_key_lem}
use behaviour_sim_api.Auth.Sessions.{Valid, validate_session_token, validate_session_token-Valid}
use behaviour_sim_api.Auth.Principals.{
  authenticated, unauthorized, key_authentication, session_principal, session_authentication,
  bearer_authentication, cookie_authentication, get_current_principal,
}

-- The credential of a principal: a live key in the header, or the token of a live session of an
-- active user in the header or in the cookie.
pub data Credential (c : AuthConfig) (s : State) (bearer cookie : Option Text)
    : Principal → Type 0 where
  by_key :
      (token : Text) (k : ApiKey) (user : User)
      → bearer ≡ some token
      → Live c token s k user
      → Credential c s bearer cookie (key_principal user s.clock k)
  by_session :
      (token : Text) (x : UserSession) (user : User)
      → (bearer ≡ some token) ⊎ (cookie ≡ some token)
      → Valid c token s x
      → get_user x.user_id s ≡ some user
      → user.is_active ≡ true
      → Credential c s bearer cookie (session_principal user x)

module _ (c : AuthConfig) (s : State) (bearer cookie : Option Text) (p : Principal) where
  session-Credential :
      (token : Text) (detail : String) (challenge : Bool)
      → (bearer ≡ some token) ⊎ (cookie ≡ some token)
      → (session_authentication c token (unauthorized detail challenge) s).0 ≡ ok (authenticated p)
      → Credential c s bearer cookie p
  unfolding session_authentication
  session-Credential token detail challenge shown e =
      elim (Option-cases (validate_session_token c token s)) [
        | inl f ↦ ground (arith, e, f)
        | inr (x, f) ↦ elim (Option-cases (get_user x.user_id s)) [
          | inl g ↦ ground (arith, e, f, g)
          | inr (user, g) ↦ elim (Bool-cases user.is_active) [
            | inr a ↦ ground (arith, e, f, g, a)
            | inl a ↦
                let same : session_principal user x ≡ p = ground (arith, e, f, g, a) in
                let found : Credential c s bearer cookie (session_principal user x) =
                  by_session token x user shown (validate_session_token-Valid c token s x f) g a in
                rw same at found
          ]
        ]
      ]

  cookie-Credential :
      (cookie_authentication c cookie s).0 ≡ ok (authenticated p) → Credential c s bearer cookie p
  unfolding cookie_authentication
  cookie-Credential e = elim (Option-cases cookie) [
    | inl f ↦ ground (arith, e, f)
    | inr (token, f) ↦ elim (Bool-cases (is_empty token)) [
      | inl g ↦ ground (arith, e, f, g)
      | inr g ↦
          session-Credential token "Invalid or expired session cookie." false (inr f)
            (ground (arith, e, f, g))
    ]
  ]

  key-Credential :
      (token : Text)
      → KeyRows s
      → bearer ≡ some token
      → ((validate_api_key c token >>= λ q. pure (key_authentication q)) s).0 ≡ ok (authenticated p)
      → Credential c s bearer cookie p
  unfolding key_authentication
  key-Credential token rows shown e = elim (validate_api_key_lem c token s rows) [
    | inl none_valid ↦ ground (arith, e, none_valid)
    | inr (k, user, live, valid) ↦
        let same : key_principal user s.clock k ≡ p = ground (arith, e, valid, live.owner_active) in
        let found : Credential c s bearer cookie (key_principal user s.clock k) =
          by_key token k user shown live in
        rw same at found
  ]

  -- Where the keys' ids are distinct: a caller that is authenticated has shown a live key of an active
  -- user in the header, or the token of a session of an active user, not revoked and not expired, in
  -- the header or in the cookie; the principal is that user, with that key or session.
  pub get_current_principal_lem :
      KeyRows s
      → (get_current_principal c bearer cookie s).0 ≡ ok (authenticated p)
      → Credential c s bearer cookie p
  unfolding get_current_principal bearer_authentication
  get_current_principal_lem rows e = elim (Option-cases bearer) [
    | inl f ↦ cookie-Credential (ground (arith, e, f))
    | inr (token, f) ↦ elim (Bool-cases (is_empty token)) [
      | inl g ↦ cookie-Credential (ground (arith, e, f, g))
      | inr g ↦ elim (Bool-cases (begins_with c.api_key_prefix token)) [
        | inl k ↦ key-Credential token rows f (ground (arith, e, f, g, k))
        | inr k ↦ elim (Bool-cases (begins_with c.session_token_prefix token)) [
          | inl h ↦
              session-Credential token "Invalid or expired session token." true (inl f)
                (ground (arith, e, f, g, k, h))
          | inr h ↦ ground (arith, e, f, g, k, h)
        ]
      ]
    ]
  ]
