-- ===== src/Tests/SignIn.antt =====
-- The theorem on the OAuth callback at concrete data.
use behaviour_sim_api.Base.{◌≡◌, refl, true, false, none, some, [], ◌∷◌, is_empty}
use behaviour_sim_api.Store.Rows.{Text, User, UserSession}
use behaviour_sim_api.Store.State.{State}
use behaviour_sim_api.Store.Action.{ok}
use behaviour_sim_api.Presets.{codes, lower, lower_char}
use behaviour_sim_api.Usage.{get_or_create_free_plan}
use behaviour_sim_api.Auth.Identities.{
  ProviderIdentity, resolve_or_create_user_identity, create_user,
}
use behaviour_sim_api.Auth.Security.{generate_session_token, hash_session_token}
use behaviour_sim_api.Auth.Sessions.{create_user_session, new_session}
use behaviour_sim_api.Auth.Providers.{
  Remote, unreachable, answered, github_exchange_code, github_get_identity, body_of, github_payload,
  github_from_user, github_from_subject, github_from_emails, choose_email, validated, primary_email,
  verified_email,
}
use behaviour_sim_api.Auth.Callback.{
  CallbackRequest, oauth_callback, get_oauth_provider, callback_from, callback_checked,
  callback_with_code, check_state, compare_digest, identify, sign_in, issue_session,
}
use behaviour_sim_api.Auth.Confirmation.{Confirmed}
use behaviour_sim_api.Auth.SignIn.{oauth_callback_lem}
use behaviour_sim_api.Tests.{store}
use behaviour_sim_api.Tests.Auth.{toy_config}

-- GitHub knows one user, whose second address is verified; Google is down.
abbrev github_only : Remote
github_only = record {
  github_token = λ code. answered 200 (record { error = none; access_token = some "gho_1" });
  github_user = λ token. answered 200 (record { id = some "77"; name = none; login = some "bob" });
  github_emails = λ token. answered 200 (
      record { email = some "old@example.com"; verified = false; primary = true }
      ∷ record { email = some "bob@example.com"; verified = true; primary = false }
      ∷ []);
  google_token = λ code. unreachable;
  google_user = λ token. unreachable;
  email_str = λ email. some email;
}

abbrev callback : CallbackRequest
callback = record {
  provider = codes "GitHub";
  code = some (codes "c0de");
  state = some (codes "st4te");
  error = none;
  cookie_state = some (codes "st4te");
}

abbrev signed_in : State
signed_in = (oauth_callback toy_config github_only (codes "xyz") callback store).1

oauth_callback_lem_example :
    ((x : Text) × (callback.state ≡ some x)
      × (callback.cookie_state ≡ some x)
      × (is_empty x ≡ false))
    × ((code : Text) × (callback.code ≡ some code)
        × (is_empty code ≡ false)
        × (identity : ProviderIdentity) × Confirmed github_only code identity
        × (lower callback.provider ≡ codes identity.provider)
        × (user : User) × (u : State) × (resolve_or_create_user_identity identity store
            ≡ (ok user, u))
        × (session : UserSession) × (create_user_session toy_config (codes "xyz") user u
            ≡ (ok (session, codes "bs_sess_xyz"), signed_in)))
unfolding oauth_callback get_oauth_provider callback_from callback_checked callback_with_code
    check_state compare_digest identify sign_in issue_session lower lower_char github_exchange_code
    github_get_identity body_of github_payload github_from_user github_from_subject
    github_from_emails validated choose_email primary_email verified_email
    resolve_or_create_user_identity create_user get_or_create_free_plan create_user_session
    new_session generate_session_token hash_session_token
oauth_callback_lem_example =
    oauth_callback_lem toy_config github_only (codes "xyz") callback store signed_in
      (codes "bs_sess_xyz") refl
