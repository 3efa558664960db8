-- ===== src/Auth/Sessions.antt =====
-- The sessions of app/auth/service.py.
use behaviour_sim_api.Base.{
  ◌+◌, ◌<◌, ◌≡◌, ◌∙◌, ap, inl, inr, arith, Bool, true, false, ◌&&◌, ◌||◌, not, Option, none, some,
  [], ◌∷◌, ◌++◌, ◌==◌, leb, Option-cases, is_empty, is_some, begins_with, find_first,
  find_first-holds, update_where, if◌then◌else◌,
}
use behaviour_sim_api.Dict.{text_eq, text_eq_iff}
use behaviour_sim_api.Store.Rows.{Text, Uuid, Instant, User, UserSession}
use behaviour_sim_api.Store.State.{State}
use behaviour_sim_api.Store.Action.{Action, pure, modify, utc_now, uuid4, ◌>>=◌, ◌>>◌}
use behaviour_sim_api.Worker.{seconds}
use behaviour_sim_api.Auth.Security.{AuthConfig, generate_session_token, hash_session_token}

unfoldable pub new_session : AuthConfig → Text → User → Uuid → Instant → UserSession
new_session c secret user id now = record {
  id = id;
  user_id = user.id;
  token_hash = (generate_session_token c secret).1;
  created_at = now;
  expires_at = now + seconds c.session_max_age_seconds;
  revoked_at = none;
}

-- The session and the raw token.
unfoldable pub create_user_session : AuthConfig → Text → User → Action (UserSession × Text)
create_user_session c secret user = do
  now ← utc_now
  id ← uuid4
  modify
      (λ s. record s { user_sessions = s.user_sessions ++ new_session c secret user id now ∷ [] })
  pure (new_session c secret user id now, (generate_session_token c secret).0)

-- The `where` clause of the lookup.
abbrev pub has_token : Text → UserSession → Bool
has_token token_hash x = text_eq x.token_hash token_hash && not (is_some x.revoked_at)

abbrev pub not_expired : Instant → UserSession → Option UserSession
not_expired now x = if leb x.expires_at now then none else some x

unfoldable pub validate_session_token : AuthConfig → Text → State → Option UserSession
validate_session_token c raw_token s =
    if is_empty raw_token || not (begins_with c.session_token_prefix raw_token)
    then none
    else elim (find_first (has_token (hash_session_token c raw_token)) s.user_sessions) [
      | none ↦ none
      | some x ↦ not_expired s.clock x
    ]

abbrev pub save_session : UserSession → State → State
save_session x s = record s {
  user_sessions = update_where (λ y. y.id == x.id) (λ _. x) s.user_sessions;
}

unfoldable pub revoke_user_session : AuthConfig → Text → Action Bool
revoke_user_session c raw_token s = elim (validate_session_token c raw_token s) [
  | none ↦ pure false s
  | some x ↦ pure true (save_session (record x { revoked_at = some s.clock }) s)
]

-- A session with this token that is stored, not revoked and not expired.
pub record Valid (c : AuthConfig) (raw_token : Text) (s : State) (x : UserSession) : Type 0 where
  pub stored : find_first (has_token (c.sha256 raw_token)) s.user_sessions ≡ some x
  pub hashed : x.token_hash ≡ c.sha256 raw_token
  pub not_revoked : x.revoked_at ≡ none
  pub lasts : s.clock < x.expires_at

-- What a lookup finds is a session with that token, and it is neither revoked nor expired.
pub validate_session_token-Valid :
    (c : AuthConfig) (raw_token : Text) (s : State) (x : UserSession)
    → validate_session_token c raw_token s ≡ some x
    → Valid c raw_token s x
unfolding validate_session_token hash_session_token
validate_session_token-Valid c raw_token s x e =
    let p = has_token (c.sha256 raw_token) in
    elim (Option-cases (find_first p s.user_sessions)) [
      | inl f ↦ ground (arith, e, f)
      | inr (y, f) ↦
          let same : y ≡ x = ground (arith, e, f) in
          let stored : find_first p s.user_sessions ≡ some x = f ∙ ap (λ z. some z) same in
          let holds = find_first-holds p s.user_sessions x stored in
          record {
            stored = stored;
            hashed = ground (arith, holds, text_eq_iff x.token_hash (c.sha256 raw_token));
            not_revoked = ground (arith, holds);
            lasts = ground (arith, e, f, same);
          }
    ]
