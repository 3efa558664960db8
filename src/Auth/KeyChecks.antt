-- ===== src/Auth/KeyChecks.antt =====
-- Which keys authenticate whom, in app/services/api_key.py.
use behaviour_sim_api.Base.{
  ◌≡◌, ◌≢◌, ◌⊎◌, ◌∙◌, ap, sym, refl, inl, inr, arith, true, false, ◌&&◌, ◌||◌, not, none, some,
  List, [], ◌∷◌, ◌++◌, String, ◌==◌, Bool-cases, Option-cases, is_empty, begins_with,
  begins_with-append, take, find_first, find_first-holds, find_first-and, find_first-key,
  find_first-append, find_first-update_where, All,
}
use behaviour_sim_api.Dict.{text_eq_iff}
use behaviour_sim_api.Store.Rows.{Text, Uuid, Instant, User, ApiKey}
use behaviour_sim_api.Store.State.{State}
use behaviour_sim_api.Store.Action.{ok}
use behaviour_sim_api.Simulations.Responses.{Principal}
use behaviour_sim_api.Auth.Security.{AuthConfig, generate_api_key, verify_api_key, hash_api_key}
use behaviour_sim_api.Auth.Keys.{
  ApiKeyCreateResult, new_key, create_api_key, save_key, revoked, revoke_api_key, get_user, is_live,
  key_used, resolve_owner, matching_key, validate_api_key,
}
use behaviour_sim_api.Auth.KeyLimits.{
  KeyRows, Saves-KeyRows, revoke_api_key-Saves, with_key, matching_key-row, create_api_key_lem,
}

abbrev pub key_principal : User → Instant → ApiKey → Principal
key_principal user now k = record {
  user = user;
  authentication_method = "api_key";
  api_key = some (key_used now k);
  session = none;
}

-- A stored key that is active, not revoked and of an active user, and whose hash is that of the
-- presented text.
pub record Live (c : AuthConfig) (raw_key : Text) (s : State) (k : ApiKey) (user : User)
    : Type 0 where
  pub stored : find_first (λ x. x.id == k.id) s.api_keys ≡ some k
  pub active : k.is_active ≡ true
  pub not_revoked : k.revoked_at ≡ none
  pub hashed : k.key_hash ≡ c.sha256 raw_key
  pub prefixed : k.key_prefix ≡ take 16 raw_key
  pub owner : get_user k.user_id s ≡ some user
  pub owner_active : user.is_active ≡ true

matching_key-holds :
    (c : AuthConfig) (raw_key : Text) (s : State) (k : ApiKey)
    → matching_key c raw_key s ≡ some k
    → (verify_api_key c raw_key k.key_hash && is_live (take 16 raw_key) k) ≡ true
unfolding matching_key
matching_key-holds c raw_key s k e =
    let live = is_live (take 16 raw_key) in
    let verified = λ (x : ApiKey). verify_api_key c raw_key x.key_hash in
    find_first-holds (λ x. verified x && live x) s.api_keys k
      (find_first-and live verified s.api_keys ∙ e)

-- Where the keys' ids are distinct: a presented text is either refused, and nothing changes, or it
-- authenticates the user of a stored key with its hash that is active and not revoked, whose time of
-- use alone is written.
pub validate_api_key_lem :
    (c : AuthConfig) (raw_key : Text) (s : State)
    → KeyRows s
    → (validate_api_key c raw_key s ≡ (ok none, s))
      ⊎ (k : ApiKey) × (user : User) × Live c raw_key s k user
        × (validate_api_key c raw_key s
            ≡ (ok (some (key_principal user s.clock k)), save_key (key_used s.clock k) s))
unfolding validate_api_key resolve_owner verify_api_key hash_api_key
validate_api_key_lem c raw_key s rows =
    elim (Bool-cases (is_empty raw_key || not (begins_with c.api_key_prefix raw_key))) [
      | inl e ↦ inl (rw e refl)
      | inr e ↦ elim (Option-cases (matching_key c raw_key s)) [
        | inl f ↦ inl (rw (e, f) refl)
        | inr (k, f) ↦
            let holds = matching_key-holds c raw_key s k f in
            elim (Option-cases (get_user k.user_id s)) [
              | inl g ↦ inl (rw (e, f) (ground (arith, g)))
              | inr (user, g) ↦ elim (Bool-cases user.is_active) [
                | inr a ↦ inl (rw (e, f) (ground (arith, g, a)))
                | inl a ↦ inr (
                  k,
                  user,
                  record {
                    stored = matching_key-row c raw_key s k rows f;
                    active = ground (arith, holds);
                    not_revoked = ground (arith, holds);
                    hashed = ground (arith, holds, text_eq_iff (c.sha256 raw_key) k.key_hash);
                    prefixed = ground (arith, holds, text_eq_iff k.key_prefix (take 16 raw_key));
                    owner = g;
                    owner_active = a;
                  },
                  rw (e, f) (ground (arith, g, a)),
                )
              ]
            ]
      ]
    ]

no_match :
    (c : AuthConfig) (raw_key : Text) (xs : List ApiKey)
    → All (λ k. k.key_hash ≢ c.sha256 raw_key) xs
    → find_first (λ k. verify_api_key c raw_key k.key_hash && is_live (take 16 raw_key) k) xs ≡ none
unfolding verify_api_key hash_api_key
no_match c raw_key [] h = refl
no_match c raw_key (k ∷ xs) h =
    ground (arith, h.0, text_eq_iff (c.sha256 raw_key) k.key_hash, no_match c raw_key xs h.1)

module _ (c : AuthConfig) (secret : Text) (user : User) (name : String) (s : State) where
  abbrev raw : Text
  raw = c.api_key_prefix ++ secret

  abbrev created : ApiKey
  created = new_key c secret user name s.next_uuid s.clock

  new_key-match : (verify_api_key c raw created.key_hash && is_live (take 16 raw) created) ≡ true
  unfolding new_key generate_api_key verify_api_key hash_api_key
  new_key-match =
      ground
        (arith, text_eq_iff (c.sha256 raw) (c.sha256 raw), text_eq_iff (take 16 raw) (take 16 raw))

  created_match :
      All (λ j. j.key_hash ≢ c.sha256 raw) s.api_keys
      → matching_key c raw (with_key c secret user name s) ≡ some created
  unfolding matching_key
  created_match unseen =
      let live = is_live (take 16 raw) in
      let verified = λ (x : ApiKey). verify_api_key c raw x.key_hash in
      let p = λ (x : ApiKey). verified x && live x in
      sym (find_first-and live verified (s.api_keys ++ created ∷ []))
      ∙ find_first-append p s.api_keys (created ∷ [])
      ∙ rw (no_match c raw s.api_keys unseen, new_key-match) refl

  validates_created :
      get_user user.id s ≡ some user
      → user.is_active ≡ true
      → is_empty raw ≡ false
      → All (λ j. j.key_hash ≢ c.sha256 raw) s.api_keys
      → (validate_api_key c raw (with_key c secret user name s)).0
        ≡ ok (some (key_principal user s.clock created))
  unfolding validate_api_key resolve_owner new_key generate_api_key
  validates_created stored active nonempty unseen =
      rw (nonempty, begins_with-append c.api_key_prefix secret, created_match unseen)
        (ground (arith, stored, active))

  -- A key that is created for a stored active user, with a hash that no other key has, authenticates
  -- that user.
  pub validate_api_key-create_api_key :
      (made : ApiKeyCreateResult)
      → (create_api_key c secret user name s).0 ≡ ok made
      → get_user user.id s ≡ some user
      → user.is_active ≡ true
      → is_empty made.key ≡ false
      → All (λ j. j.key_hash ≢ c.sha256 made.key) s.api_keys
      → let t = (create_api_key c secret user name s).1 in
        (k : ApiKey) × (k.id ≡ made.id)
        × (k.user_id ≡ user.id)
        × ((validate_api_key c made.key t).0 ≡ ok (some (key_principal user t.clock k)))
  unfolding generate_api_key new_key
  validate_api_key-create_api_key made e stored active nonempty unseen =
      elim (create_api_key_lem c secret user name s) [
        | inl (_, _, _, refused, _) ↦ ground (arith, e, refused)
        | inr (same, _, result) ↦
            let key : made.key ≡ raw = ground (arith, e, result) in
            let id : made.id ≡ created.id = ground (arith, e, result) in
            (
              created,
              sym id,
              refl,
              rw (same, key)
                  (validates_created stored active (rw key at nonempty) (rw key at unseen)),
            )
      ]

module _ (user : User) (key_id : Uuid) (s : State) (rows : KeyRows s) where
  abbrev revoking : State
  revoking = (revoke_api_key user key_id s).1

  -- The row of a revoked key is not active.
  revoked_row :
      (r k : ApiKey)
      → (revoke_api_key user key_id s).0 ≡ ok (some r)
      → find_first (λ x. x.id == key_id) revoking.api_keys ≡ some k
      → k.is_active ≡ false
  unfolding revoke_api_key
  revoked_row r k done e =
      let owned = λ (x : ApiKey). x.id == key_id && x.user_id == user.id in
      elim (Option-cases (find_first owned s.api_keys)) [
        | inl none_owned ↦ ground (arith, none_owned, done)
        | inr (old, f) ↦
            let id : old.id ≡ key_id = ground (arith, find_first-holds owned s.api_keys old f) in
            let row : find_first (λ x. x.id == key_id) s.api_keys ≡ some old =
              ap (λ i. find_first (λ x. x.id == i) s.api_keys) (sym id)
              ∙ find_first-key (λ x. x.id) owned s.api_keys old rows.distinct f in
            elim (Bool-cases old.is_active) [
              | inl a ↦
                  let updated =
                    find_first-update_where (λ x. x.id == key_id) (λ x. x.id == old.id)
                      (λ _. revoked s.clock old) s.api_keys (λ x h. ground (arith, h, id)) in
                  ground (arith, f, a, e, updated, row, id)
              | inr a ↦ ground (arith, f, a, e, row)
            ]
      ]

  -- Where the keys' ids are distinct, no text authenticates with a key once it is revoked.
  pub validate_api_key-revoke_api_key :
      (c : AuthConfig) (raw_key : Text) (r used : ApiKey) (p : Principal)
      → (revoke_api_key user key_id s).0 ≡ ok (some r)
      → (validate_api_key c raw_key revoking).0 ≡ ok (some p)
      → p.api_key ≡ some used
      → used.id ≢ key_id
  validate_api_key-revoke_api_key c raw_key r used p done valid same id =
      let rows' = Saves-KeyRows (revoke_api_key-Saves user key_id s rows) rows in
      elim (validate_api_key_lem c raw_key revoking rows') [
        | inl refused ↦ ground (arith, refused, valid)
        | inr (k, owner, live, e) ↦
            let first : k.id ≡ key_id = ground (arith, e, valid, same, id) in
            ground (
              arith,
              live.active,
              revoked_row r k done (
                  ap (λ i. find_first (λ x. x.id == i) revoking.api_keys) (sym first)
                  ∙ live.stored),
            )
      ]
