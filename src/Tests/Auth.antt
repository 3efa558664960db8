-- ===== src/Tests/Auth.antt =====
-- The theorems on authentication at concrete data.
use behaviour_sim_api.Base.{
  ◌+◌, ◌≤◌, ◌≡◌, ◌≢◌, ◌⊎◌, arith, refl, true, none, some, [], ◌∷◌, ◌++◌, find_first, ltb,
  if◌then◌else◌,
}
use behaviour_sim_api.Store.Rows.{Instant, User, ApiKey, AuthIdentity}
use behaviour_sim_api.Store.State.{State}
use behaviour_sim_api.Store.Action.{ok, err}
use behaviour_sim_api.Presets.{codes}
use behaviour_sim_api.Worker.{seconds}
use behaviour_sim_api.Auth.Security.{AuthConfig, generate_api_key, hash_api_key, verify_api_key}
use behaviour_sim_api.Auth.Keys.{
  create_api_key, check_key_limit, get_user, key_result, key_used, matching_key, resolve_owner,
  revoke_api_key, revoked, save_key, validate_api_key,
}
use behaviour_sim_api.Auth.KeyLimits.{KeyRows, WithinKeyLimits, creates, KeyStep-WithinKeyLimits}
use behaviour_sim_api.Auth.KeyChecks.{
  Live, key_principal, validate_api_key_lem, validate_api_key-create_api_key,
  validate_api_key-revoke_api_key,
}
use behaviour_sim_api.Auth.Sessions.{
  new_session, create_user_session, validate_session_token, revoke_user_session,
}
use behaviour_sim_api.Auth.Lifetime.{at_time, create_user_session_lem}
use behaviour_sim_api.Auth.Principals.{
  get_current_principal, bearer_authentication, key_authentication,
}
use behaviour_sim_api.Auth.Credentials.{Credential, get_current_principal_lem}
use behaviour_sim_api.Auth.Identities.{
  ProviderIdentity, resolve_or_create_user_identity, is_identity, has_email, account_inactive,
  account_linking_required,
}
use behaviour_sim_api.Auth.Accounts.{
  Accounts, Unlinked, resolve_or_create_user_identity-Accounts, resolve_or_create_user_identity_lem,
}
use behaviour_sim_api.Tests.{alice, store}

-- Every text is its own digest.
abbrev pub toy_config : AuthConfig
toy_config = record {
  sha256 = λ t. t;
  api_key_prefix = codes "bs_live_";
  session_token_prefix = codes "bs_sess_";
  session_max_age_seconds = 3600;
}

store-KeyRows : KeyRows store
store-KeyRows = record { distinct = tt; fresh = tt }

store-WithinKeyLimits : WithinKeyLimits store
store-WithinKeyLimits user plan known has_plan = omega arith

KeyStep-WithinKeyLimits_example :
    let t = (create_api_key toy_config (codes "abcdefghij") alice "laptop" store).1 in
    KeyRows t × WithinKeyLimits t
KeyStep-WithinKeyLimits_example =
    KeyStep-WithinKeyLimits toy_config store
      (create_api_key toy_config (codes "abcdefghij") alice "laptop" store).1
      (creates (codes "abcdefghij") alice "laptop" refl) store-KeyRows store-WithinKeyLimits

abbrev key_a : ApiKey
key_a = record {
  id = 4;
  user_id = 1;
  name = "laptop";
  key_prefix = codes "bs_live_aaaaaaaa";
  key_hash = codes "bs_live_aaaaaaaaa";
  is_active = true;
  created_at = 0;
  last_used_at = none;
  revoked_at = none;
}

abbrev key_b : ApiKey
key_b = record key_a {
  id = 5;
  key_prefix = codes "bs_live_bbbbbbbb";
  key_hash = codes "bs_live_bbbbbbbbb";
}

abbrev two_keys : State
two_keys = record store { api_keys = key_a ∷ key_b ∷ [] }

two_keys-KeyRows : KeyRows two_keys
two_keys-KeyRows = record {
  distinct = (((λ e. omega (arith, e)), tt), (tt, tt));
  fresh = (omega arith, (omega arith, tt));
}

validate_api_key_lem_example :
    let raw = codes "bs_live_bbbbbbbbb" in
    (validate_api_key toy_config raw two_keys ≡ (ok none, two_keys))
    ⊎ (k : ApiKey) × (user : User) × Live toy_config raw two_keys k user
      × (validate_api_key toy_config raw two_keys
          ≡ (ok (some (key_principal user 500 k)), save_key (key_used 500 k) two_keys))
validate_api_key_lem_example =
    validate_api_key_lem toy_config (codes "bs_live_bbbbbbbbb") two_keys two_keys-KeyRows

validate_api_key-create_api_key_example :
    let made = key_result toy_config (codes "abcdefghij") "laptop" 10 500 in
    let t = (create_api_key toy_config (codes "abcdefghij") alice "laptop" store).1 in
    (k : ApiKey) × (k.id ≡ made.id)
    × (k.user_id ≡ 1)
    × ((validate_api_key toy_config made.key t).0 ≡ ok (some (key_principal alice t.clock k)))
unfolding create_api_key check_key_limit generate_api_key
validate_api_key-create_api_key_example =
    validate_api_key-create_api_key toy_config (codes "abcdefghij") alice "laptop" store
      (key_result toy_config (codes "abcdefghij") "laptop" 10 500) refl refl refl refl tt

validate_api_key-revoke_api_key_example : key_b.id ≢ 4
unfolding validate_api_key matching_key resolve_owner revoke_api_key verify_api_key hash_api_key
validate_api_key-revoke_api_key_example =
    validate_api_key-revoke_api_key alice 4 two_keys two_keys-KeyRows toy_config
      (codes "bs_live_bbbbbbbbb") (revoked 500 key_a) (key_used 500 key_b)
      (key_principal alice 500 key_b) refl refl refl

create_user_session_lem_example :
    let token = codes "bs_sess_" ++ codes "xyz" in
    let x = new_session toy_config (codes "xyz") alice 10 500 in
    let t = (create_user_session toy_config (codes "xyz") alice store).1 in
    ((create_user_session toy_config (codes "xyz") alice store).0 ≡ ok (x, token))
    × ((now : Instant)
        → (validate_session_token toy_config token (at_time now t)
            ≡ (if ltb now (500 + seconds 3600) then some x else none))
          × ((later : Instant)
              → now ≤ later
              → validate_session_token toy_config token
                  (at_time later (revoke_user_session toy_config token (at_time now t)).1)
                ≡ none))
create_user_session_lem_example =
    create_user_session_lem toy_config (codes "xyz") alice store tt refl

get_current_principal_lem_example :
    Credential toy_config two_keys
      (some (codes "bs_live_bbbbbbbbb"))
      none
      (key_principal alice 500 key_b)
unfolding get_current_principal bearer_authentication key_authentication validate_api_key
    matching_key resolve_owner verify_api_key hash_api_key
get_current_principal_lem_example =
    get_current_principal_lem toy_config two_keys (some (codes "bs_live_bbbbbbbbb")) none
      (key_principal alice 500 key_b) two_keys-KeyRows refl

abbrev visitor : ProviderIdentity
visitor = record {
  provider = "github";
  provider_subject = "77";
  email = "bob@example.com";
  display_name = none;
}

store-Accounts : Accounts store
store-Accounts = record {
  emails = (tt, tt);
  identities = tt;
  fresh = (omega arith, tt);
  owners = tt;
}

resolve_or_create_user_identity-Accounts_example :
    Accounts (resolve_or_create_user_identity visitor store).1
resolve_or_create_user_identity-Accounts_example =
    resolve_or_create_user_identity-Accounts visitor store store-Accounts

resolve_or_create_user_identity_lem_example :
    let q = resolve_or_create_user_identity visitor store in
    ((a : AuthIdentity) × (u : User) × (find_first (is_identity visitor) store.auth_identities
        ≡ some a)
      × (get_user a.user_id store ≡ some u)
      × (q ≡ (if u.is_active then ok u else err account_inactive, store)))
    ⊎ (Unlinked visitor store
        × (((v : User) × (find_first (has_email visitor.email) store.users ≡ some v)
              × (q ≡ (err account_linking_required, store)))
            ⊎ ((u : User) × (find_first (has_email visitor.email) store.users ≡ none)
                × (q.0 ≡ ok u)
                × (u.email ≡ visitor.email)
                × (u.is_active ≡ true)
                × (q.1.users ≡ store.users ++ u ∷ [])
                × (resolve_or_create_user_identity visitor q.1 ≡ (ok u, q.1)))))
resolve_or_create_user_identity_lem_example =
    resolve_or_create_user_identity_lem visitor store store-Accounts
