-- ===== src/Auth/KeyLimits.antt =====
-- The number of active keys in app/services/api_key.py stays within the plan's.
use behaviour_sim_api.Base.{
  ◌+◌, ◌≤◌, ◌<◌, ◌≡◌, ◌⊎◌, ◌∙◌, ap, sym, refl, inl, inr, arith, true, ◌&&◌, some, [], ◌∷◌, ◌++◌,
  String, ◌==◌, leb, Bool-cases, Option-cases, find_first, find_first-key, All, All-imp, All-append,
  All-update_where, UniqueKeys, UniqueKeys-append, UniqueKeys-update_where, count_where-append,
  count_where-update_key, find_first-and, ◌||◌, not, is_empty, begins_with, take,
}
use behaviour_sim_api.Store.Rows.{Text, Uuid, Plan, User, ApiKey}
use behaviour_sim_api.Store.State.{State}
use behaviour_sim_api.Store.Action.{ok, err}
use behaviour_sim_api.Usage.{user_plan}
use behaviour_sim_api.Auth.Security.{AuthConfig, verify_api_key}
use behaviour_sim_api.Auth.Keys.{
  is_active_of, key_result, active_count, check_key_limit, plan_limit_exceeded, new_key,
  create_api_key, save_key, revoked, revoke_api_key, get_user, key_used, resolve_owner,
  matching_key, validate_api_key, is_live,
}

-- Every user with a plan has no more active keys than the plan allows.
abbrev pub WithinKeyLimits : State → Type 0
WithinKeyLimits s =
    (user : User) (plan : Plan)
    → get_user user.id s ≡ some user
    → user_plan s user ≡ some plan
    → active_count user.id s ≤ plan.max_api_keys

-- The keys' ids are distinct and used.
pub record KeyRows (s : State) : Type 0 where
  pub distinct : UniqueKeys (λ k. k.id) s.api_keys
  pub fresh : All (λ k. k.id < s.next_uuid) s.api_keys

-- What the service does to the keys.
pub data KeyStep (c : AuthConfig) (s : State) : State → Type 0 where
  creates :
      (secret : Text) (user : User) (name : String)
      → get_user user.id s ≡ some user
      → KeyStep c s (create_api_key c secret user name s).1
  revokes : (user : User) (key_id : Uuid) → KeyStep c s (revoke_api_key user key_id s).1
  validates : (raw_key : Text) → KeyStep c s (validate_api_key c raw_key s).1

-- The state after an accepted creation.
abbrev pub with_key : AuthConfig → Text → User → String → State → State
with_key c secret user name s = record s {
  api_keys = s.api_keys ++ new_key c secret user name s.next_uuid s.clock ∷ [];
  next_uuid = s.next_uuid + 1;
}

-- A creation is refused at the limit, where nothing changes, and else adds the new key.
pub create_api_key_lem :
    (c : AuthConfig) (secret : Text) (user : User) (name : String) (s : State)
    → let (r, t) = create_api_key c secret user name s in
      ((plan : Plan) × (user_plan s user ≡ some plan)
        × (plan.max_api_keys ≤ active_count user.id s)
        × (r ≡ err (plan_limit_exceeded plan (active_count user.id s)))
        × (t ≡ s))
      ⊎ ((t ≡ with_key c secret user name s)
          × ((plan : Plan)
              → user_plan s user ≡ some plan
              → active_count user.id s < plan.max_api_keys)
          × (r ≡ ok (key_result c secret name s.next_uuid s.clock)))
unfolding create_api_key check_key_limit
create_api_key_lem c secret user name s = elim (Option-cases (user_plan s user)) [
  | inl e ↦ inr (ground (arith, e), λ plan f. ground (arith, e, f), ground (arith, e))
  | inr (plan, e) ↦ elim (Bool-cases (leb plan.max_api_keys (active_count user.id s))) [
    | inl full ↦ inl (plan, e, ground arith, ground (arith, e, full), ground (arith, e, full))
    | inr free ↦
        inr (ground (arith, e, free), λ p f. ground (arith, e, f, free), ground (arith, e, free))
  ]
]

module _ (s : State) (key old : ApiKey) (rows : KeyRows s) (same : old.id ≡ key.id)
    (found : find_first (λ k. k.id == key.id) s.api_keys ≡ some old) where
  save_key-KeyRows : KeyRows (save_key key s)
  save_key-KeyRows = record {
    distinct =
        UniqueKeys-update_where (λ k. k.id) (λ k. k.id == key.id) (λ _. key) s.api_keys
          (λ a e. ground arith) rows.distinct;
    fresh =
        All-update_where (λ k. k.id < s.next_uuid) (λ k. k.id == key.id) (λ _. key) s.api_keys
          (λ a e h. ground arith) rows.fresh;
  }

  save_key-le :
      (id : Uuid)
      → old.user_id ≡ key.user_id
      → (key.is_active ≡ true → old.is_active ≡ true)
      → active_count id (save_key key s) ≤ active_count id s
  save_key-le id owner active =
      let count =
        count_where-update_key (λ k. k.id) (is_active_of id) s.api_keys old key rows.distinct same
          found in
      ground (arith, owner, active, count)

  save_key-WithinKeyLimits :
      old.user_id ≡ key.user_id
      → (key.is_active ≡ true → old.is_active ≡ true)
      → WithinKeyLimits s
      → WithinKeyLimits (save_key key s)
  save_key-WithinKeyLimits owner active within user plan u p =
      omega (arith, within user plan u p, save_key-le user.id owner active)

creates-WithinKeyLimits :
    (c : AuthConfig) (secret : Text) (user : User) (name : String) (s : State)
    → get_user user.id s ≡ some user
    → WithinKeyLimits s
    → ((plan : Plan) → user_plan s user ≡ some plan → active_count user.id s < plan.max_api_keys)
    → WithinKeyLimits (with_key c secret user name s)
unfolding new_key
creates-WithinKeyLimits c secret user name s stored within free u plan known has_plan =
    let more =
      count_where-append (is_active_of u.id) s.api_keys
        (new_key c secret user name s.next_uuid s.clock ∷ []) in
    elim (Bool-cases (user.id == u.id)) [
      | inl same ↦
          let e : user.id ≡ u.id = ground arith in
          let both : some user ≡ some u = sym stored ∙ ap (λ i. get_user i s) e ∙ known in
          let one : user ≡ u = ground (arith, both) in
          let room = free plan (ap (user_plan s) one ∙ has_plan) in ground (arith, more, e, room)
      | inr other ↦ ground (arith, more, other, within u plan known has_plan)
    ]

creates-KeyRows :
    (c : AuthConfig) (secret : Text) (user : User) (name : String) (s : State)
    → KeyRows s
    → KeyRows (with_key c secret user name s)
unfolding new_key
creates-KeyRows c secret user name s rows = record {
  distinct =
      UniqueKeys-append (λ k. k.id) s.api_keys (new_key c secret user name s.next_uuid s.clock)
        rows.distinct rows.fresh;
  fresh =
      All-append (λ k. k.id < s.next_uuid + 1) s.api_keys
        (new_key c secret user name s.next_uuid s.clock ∷ [])
        (All-imp _ _ s.api_keys (λ k h. omega (arith, h)) rows.fresh) (omega arith, tt);
}

-- What a revocation and a validation do to the keys: nothing, or they save a key that stays its
-- user's and does not become active.
pub data Saves (s : State) : State → Type 0 where
  unchanged : Saves s s
  saves :
      (old key : ApiKey)
      → find_first (λ k. k.id == key.id) s.api_keys ≡ some old
      → old.id ≡ key.id
      → old.user_id ≡ key.user_id
      → (key.is_active ≡ true → old.is_active ≡ true)
      → Saves s (save_key key s)

pub revoke_api_key-Saves :
    (user : User) (key_id : Uuid) (s : State) → KeyRows s → Saves s (revoke_api_key user key_id s).1
unfolding revoke_api_key
revoke_api_key-Saves user key_id s rows =
    let owned = λ (k : ApiKey). k.id == key_id && k.user_id == user.id in
    elim (Option-cases (find_first owned s.api_keys)) [
      | inl e ↦ rw (revoke_api_key, e) unchanged
      | inr (k, e) ↦ elim (Bool-cases k.is_active) [
        | inl a ↦
            rw (revoke_api_key, e, a)
              (saves k (revoked s.clock k)
                (find_first-key (λ x. x.id) owned s.api_keys k rows.distinct e) refl refl (λ h. a))
        | inr a ↦ rw (revoke_api_key, e, a) unchanged
      ]
    ]

pub matching_key-row :
    (c : AuthConfig) (raw_key : Text) (s : State) (k : ApiKey)
    → KeyRows s
    → matching_key c raw_key s ≡ some k
    → find_first (λ x. x.id == k.id) s.api_keys ≡ some k
unfolding matching_key
matching_key-row c raw_key s k rows e =
    let live = is_live (take 16 raw_key) in
    let verified = λ (x : ApiKey). verify_api_key c raw_key x.key_hash in
    find_first-key (λ x. x.id) (λ x. verified x && live x) s.api_keys k rows.distinct
      (find_first-and live verified s.api_keys ∙ e)

resolve_owner-Saves :
    (k : ApiKey) (s : State)
    → find_first (λ x. x.id == k.id) s.api_keys ≡ some k
    → Saves s (resolve_owner k s).1
unfolding resolve_owner
resolve_owner-Saves k s stored = elim (Option-cases (get_user k.user_id s)) [
  | inl e ↦ rw (resolve_owner, e) unchanged
  | inr (user, e) ↦ elim (Bool-cases user.is_active) [
    | inl a ↦ rw (resolve_owner, e, a) (saves k (key_used s.clock k) stored refl refl (λ h. h))
    | inr a ↦ rw (resolve_owner, e, a) unchanged
  ]
]

validate_api_key-Saves :
    (c : AuthConfig) (raw_key : Text) (s : State)
    → KeyRows s
    → Saves s (validate_api_key c raw_key s).1
unfolding validate_api_key
validate_api_key-Saves c raw_key s rows =
    elim (Bool-cases (is_empty raw_key || not (begins_with c.api_key_prefix raw_key))) [
      | inl e ↦ rw (validate_api_key, e) unchanged
      | inr e ↦ elim (Option-cases (matching_key c raw_key s)) [
        | inl f ↦ rw (validate_api_key, e, f) unchanged
        | inr (k, f) ↦
            rw (validate_api_key, e, f)
              (resolve_owner-Saves k s (matching_key-row c raw_key s k rows f))
      ]
    ]

pub Saves-KeyRows : {s t : State} → Saves s t → KeyRows s → KeyRows t
Saves-KeyRows unchanged rows = rows
Saves-KeyRows {s} (saves old key found same owner active) rows =
    save_key-KeyRows s key old rows same found

Saves-keeps :
    {s t : State} → Saves s t → KeyRows s → WithinKeyLimits s → KeyRows t × WithinKeyLimits t
Saves-keeps unchanged rows within = (rows, within)
Saves-keeps {s} (saves old key found same owner active) rows within = (
  save_key-KeyRows s key old rows same found,
  save_key-WithinKeyLimits s key old rows same found owner active within,
)

-- Where the keys' ids are distinct and used, and every user with a plan has no more active keys than
-- the plan allows, that is so after a creation for a stored user, a revocation and a validation.
pub KeyStep-WithinKeyLimits :
    (c : AuthConfig) (s t : State)
    → KeyStep c s t
    → KeyRows s
    → WithinKeyLimits s
    → KeyRows t × WithinKeyLimits t
KeyStep-WithinKeyLimits c s _ (creates secret user name stored) rows within =
    elim (create_api_key_lem c secret user name s) [
      | inl (_, _, _, _, same) ↦ rw same (rows, within)
      | inr (made, free, _) ↦ rw made (
        creates-KeyRows c secret user name s rows,
        creates-WithinKeyLimits c secret user name s stored within free,
      )
    ]
KeyStep-WithinKeyLimits c s _ (revokes user key_id) rows within =
    Saves-keeps (revoke_api_key-Saves user key_id s rows) rows within
KeyStep-WithinKeyLimits c s _ (validates raw_key) rows within =
    Saves-keeps (validate_api_key-Saves c raw_key s rows) rows within
