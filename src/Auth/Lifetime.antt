-- ===== src/Auth/Lifetime.antt =====
-- How long a session of app/auth/service.py lasts.
use behaviour_sim_api.Base.{
  ◌+◌, ◌≤◌, ◌≡◌, ◌≢◌, ◌∙◌, refl, inl, inr, arith, true, false, none, some, List, [], ◌∷◌, ◌++◌, ltb,
  ◌==◌, ==_refl, Bool-cases, is_empty, begins_with-append, find_first, find_first-append, All,
  update_where, if◌then◌else◌,
}
use behaviour_sim_api.Dict.{text_eq_iff}
use behaviour_sim_api.Store.Rows.{Text, Instant, User, UserSession}
use behaviour_sim_api.Store.State.{State}
use behaviour_sim_api.Store.Action.{ok}
use behaviour_sim_api.Worker.{seconds}
use behaviour_sim_api.Auth.Security.{AuthConfig, generate_session_token, hash_session_token}
use behaviour_sim_api.Auth.Sessions.{
  new_session, create_user_session, has_token, validate_session_token, revoke_user_session,
}

no_token :
    (h : Text) (xs : List UserSession)
    → All (λ y. y.token_hash ≢ h) xs
    → find_first (has_token h) xs ≡ none
no_token h [] d = refl
no_token h (y ∷ xs) d = ground (arith, d.0, text_eq_iff y.token_hash h, no_token h xs d.1)

-- No row has the token once the rows of a session are revoked and the others have other tokens.
revoked_token :
    (h : Text) (x : UserSession) (now : Instant) (xs : List UserSession)
    → All (λ y. y.token_hash ≢ h) xs
    → find_first
        (has_token h)
        (update_where (λ y. y.id == x.id) (λ _. record x { revoked_at = some now }) (xs ++ x ∷ []))
      ≡ none
revoked_token h x now [] d = ground (arith, ==_refl x.id)
revoked_token h x now (y ∷ xs) d =
    ground (arith, d.0, text_eq_iff y.token_hash h, revoked_token h x now xs d.1)

-- The state at another time.
abbrev pub at_time : Instant → State → State
at_time now t = record t { clock = now }

module _ (c : AuthConfig) (secret : Text) (user : User) (s : State) where
  abbrev raw : Text
  raw = c.session_token_prefix ++ secret

  abbrev session : UserSession
  session = new_session c secret user s.next_uuid s.clock

  abbrev signed_in : State
  signed_in = (create_user_session c secret user s).1

  module _ (unseen : All (λ y. y.token_hash ≢ c.sha256 raw) s.user_sessions)
      (nonempty : is_empty raw ≡ false) where
    finds : find_first (has_token (c.sha256 raw)) (s.user_sessions ++ session ∷ []) ≡ some session
    unfolding new_session generate_session_token hash_session_token
    finds =
        find_first-append (has_token (c.sha256 raw)) s.user_sessions (session ∷ [])
        ∙ rw (no_token (c.sha256 raw) s.user_sessions unseen)
            (ground (arith, text_eq_iff (c.sha256 raw) (c.sha256 raw)))

    validates :
        (now : Instant)
        → validate_session_token c raw (at_time now signed_in)
          ≡ (if ltb now (s.clock + seconds c.session_max_age_seconds) then some session else none)
    unfolding validate_session_token create_user_session hash_session_token new_session
    validates now =
        rw (nonempty, begins_with-append c.session_token_prefix secret, finds) (ground arith)

    abbrev signed_out : Instant → State
    signed_out now = (revoke_user_session c raw (at_time now signed_in)).1

    revoked_at_once :
        (now later : Instant)
        → ltb now (s.clock + seconds c.session_max_age_seconds) ≡ true
        → validate_session_token c raw (at_time later (signed_out now)) ≡ none
    unfolding revoke_user_session create_user_session validate_session_token hash_session_token
        new_session
    revoked_at_once now later lasts =
        rw
          (
            revoke_user_session,
            validates now,
            lasts,
            nonempty,
            begins_with-append c.session_token_prefix secret,
          )
          (rw (revoked_token (c.sha256 raw) session now s.user_sessions unseen) refl)

    expired_before :
        (now later : Instant)
        → ltb now (s.clock + seconds c.session_max_age_seconds) ≡ false
        → now ≤ later
        → validate_session_token c raw (at_time later (signed_out now)) ≡ none
    unfolding revoke_user_session validate_session_token
    expired_before now later ended after =
        let still : ltb later (s.clock + seconds c.session_max_age_seconds) ≡ false =
          ground arith in
        rw (revoke_user_session, validates now, ended) (validates later ∙ rw still refl)

    -- For a token whose hash no session has: the token that a creation returns is accepted exactly until
    -- its time has passed, as the new session of the user, and once it is revoked it is accepted no more.
    pub create_user_session_lem :
        ((create_user_session c secret user s).0 ≡ ok (session, raw))
        × ((now : Instant)
            → (validate_session_token c raw (at_time now signed_in) ≡ (
                if ltb now (s.clock + seconds c.session_max_age_seconds)
                then some session
                else none))
              × ((later : Instant)
                  → now ≤ later
                  → validate_session_token c raw (at_time later (signed_out now)) ≡ none))
    unfolding create_user_session generate_session_token
    create_user_session_lem = (
      refl,
      λ now. (
        validates now,
        λ later after. elim (Bool-cases (ltb now (s.clock + seconds c.session_max_age_seconds))) [
          | inl lasts ↦ revoked_at_once now later lasts
          | inr ended ↦ expired_before now later ended after
        ],
      ),
    )
