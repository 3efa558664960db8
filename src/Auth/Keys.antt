-- ===== src/Auth/Keys.antt =====
-- app/services/api_key.py. The process's lock and the lock on the user's row make a creation one step.
use behaviour_sim_api.Base.{
  ℕ, Bool, true, false, ◌&&◌, ◌||◌, not, Option, none, some, List, [], ◌∷◌, ◌++◌, String, ◌==◌, leb,
  is_some, is_empty, begins_with, take, find_first, select_where, update_where, count_where,
  sort_by, if◌then◌else◌,
}
use behaviour_sim_api.Dict.{text_eq}
use behaviour_sim_api.Store.Rows.{Text, Uuid, Instant, Plan, User, ApiKey, number, text}
use behaviour_sim_api.Store.State.{State}
use behaviour_sim_api.Store.Action.{
  Error, api_error, Action, pure, raise_if, modify, utc_now, uuid4, ◌>>=◌, ◌>>◌,
}
use behaviour_sim_api.Usage.{user_plan}
use behaviour_sim_api.Simulations.Responses.{Principal}
use behaviour_sim_api.Auth.Security.{AuthConfig, generate_api_key, verify_api_key}

pub record ApiKeyCreateResult : Type 0 where
  pub id : Uuid
  pub name : String
  pub key : Text
  pub key_prefix : Text
  pub created_at : Instant

unfoldable pub plan_limit_exceeded : Plan → ℕ → Error
plan_limit_exceeded plan active_count = api_error (record {
  message = record {
    template = "Active API key limit reached for plan '{}'. Maximum allowed: {}.";
    values = text plan.name ∷ number plan.max_api_keys ∷ [];
  };
  status_code = 403;
  error_code = "plan_limit_exceeded";
  details =
      ("resource", text "api_keys")
      ∷ ("max_allowed", number plan.max_api_keys)
      ∷ ("current", number active_count)
      ∷ [];
  headers = [];
})

abbrev pub is_active_of : Uuid → ApiKey → Bool
is_active_of user_id k = k.user_id == user_id && k.is_active

-- `select(func.count(APIKey.id))` of the user's active keys.
abbrev pub active_count : Uuid → State → ℕ
active_count user_id s = count_where (is_active_of user_id) s.api_keys

-- The check of the plan's limit, where the user has a plan.
unfoldable pub check_key_limit : User → Action (Unit {0})
check_key_limit user s = elim (user_plan s user) [
  | none ↦ pure tt s
  | some plan ↦
      raise_if (leb plan.max_api_keys (active_count user.id s))
        (plan_limit_exceeded plan (active_count user.id s)) s
]

unfoldable pub new_key : AuthConfig → Text → User → String → Uuid → Instant → ApiKey
new_key c secret user name id now =
    let (raw_key, key_prefix, key_hash) = generate_api_key c secret in
    record {
      id = id;
      user_id = user.id;
      name = name;
      key_prefix = key_prefix;
      key_hash = key_hash;
      is_active = true;
      created_at = now;
      last_used_at = none;
      revoked_at = none;
    }

abbrev pub key_result : AuthConfig → Text → String → Uuid → Instant → ApiKeyCreateResult
key_result c secret name id now = record {
  id = id;
  name = name;
  key = (generate_api_key c secret).0;
  key_prefix = (generate_api_key c secret).1;
  created_at = now;
}

unfoldable pub create_api_key : AuthConfig → Text → User → String → Action ApiKeyCreateResult
create_api_key c secret user name = do
  check_key_limit user
  id ← uuid4
  now ← utc_now
  modify (λ s. record s { api_keys = s.api_keys ++ new_key c secret user name id now ∷ [] })
  pure (key_result c secret name id now)

-- Keys of one instant keep their order in the table, which the query leaves open.
unfoldable pub list_api_keys : User → State → List ApiKey
list_api_keys user s =
    sort_by (λ j k. leb k.created_at j.created_at)
      (select_where (λ k. k.user_id == user.id) s.api_keys)

-- `db.commit()` for a key that was changed.
abbrev pub save_key : ApiKey → State → State
save_key key s = record s { api_keys = update_where (λ k. k.id == key.id) (λ _. key) s.api_keys }

abbrev pub revoked : Instant → ApiKey → ApiKey
revoked now key = record key { is_active = false; revoked_at = some now }

unfoldable pub revoke_api_key : User → Uuid → Action (Option ApiKey)
revoke_api_key user key_id s =
    elim (find_first (λ k. k.id == key_id && k.user_id == user.id) s.api_keys) [
      | none ↦ pure none s
      | some key ↦
          if key.is_active
          then pure (some (revoked s.clock key)) (save_key (revoked s.clock key) s)
          else pure (some key) s
    ]

-- The `where` clause of the candidates.
abbrev pub is_live : Text → ApiKey → Bool
is_live key_prefix k =
    text_eq k.key_prefix key_prefix && (k.is_active && not (is_some k.revoked_at))

-- The first candidate whose hash is that of the key.
unfoldable pub matching_key : AuthConfig → Text → State → Option ApiKey
matching_key c raw_key s =
    find_first (λ k. verify_api_key c raw_key k.key_hash)
      (select_where (is_live (take 16 raw_key)) s.api_keys)

abbrev pub get_user : Uuid → State → Option User
get_user id s = find_first (λ u. u.id == id) s.users

abbrev pub key_used : Instant → ApiKey → ApiKey
key_used now key = record key { last_used_at = some now }

-- The owner of a matched key, and the time of its use.
unfoldable pub resolve_owner : ApiKey → Action (Option Principal)
resolve_owner key s = elim (get_user key.user_id s) [
  | none ↦ pure none s
  | some user ↦
      if user.is_active
      then pure
          (some (record {
            user = user;
            authentication_method = "api_key";
            api_key = some (key_used s.clock key);
            session = none;
          }))
          (save_key (key_used s.clock key) s)
      else pure none s
]

unfoldable pub validate_api_key : AuthConfig → Text → Action (Option Principal)
validate_api_key c raw_key s =
    if is_empty raw_key || not (begins_with c.api_key_prefix raw_key)
    then pure none s
    else elim (matching_key c raw_key s) [ none ↦ pure none s | some key ↦ resolve_owner key s ]
