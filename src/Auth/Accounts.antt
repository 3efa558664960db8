-- ===== src/Auth/Accounts.antt =====
-- The accounts that `resolve_or_create_user_identity` of app/auth/service.py keeps apart.
use behaviour_sim_api.Base.{
  ◌+◌, ◌<◌, ◌≡◌, ◌≢◌, ◌⊎◌, ◌∙◌, ap, refl, inl, inr, arith, true, none, some, List, [], ◌∷◌, ◌++◌,
  eq_iff, ◌==◌, Option-cases, find_first, find_first-none, find_first-append, All, All-imp,
  All-append, All-find_first, Pairwise, Pairwise-append, if◌then◌else◌,
}
use behaviour_sim_api.Store.Rows.{Uuid, User, AuthIdentity}
use behaviour_sim_api.Store.State.{State}
use behaviour_sim_api.Store.Action.{Result, ok, err}
use behaviour_sim_api.Usage.{get_or_create_free_plan}
use behaviour_sim_api.Auth.Keys.{get_user}
use behaviour_sim_api.Auth.Identities.{
  ProviderIdentity, account_inactive, account_linking_required, is_identity, has_email, known_user,
  new_user, new_identity, create_user, resolve_or_create_user_identity,
}

-- Two identities differ in the provider or in its name for the user.
abbrev pub Apart : AuthIdentity → AuthIdentity → Type 0
Apart a b = ¬ ((a.provider ≡ b.provider) × (a.provider_subject ≡ b.provider_subject))

pub record Accounts (s : State) : Type 0 where
  pub emails : Pairwise (λ u v. u.email ≢ v.email) s.users
  pub identities : Pairwise Apart s.auth_identities
  pub fresh : All (λ u. u.id < s.next_uuid) s.users
  pub owners : All (λ a. (u : User) × (get_user a.user_id s ≡ some u)) s.auth_identities

no_user :
    (id : Uuid) (us : List User) → All (λ u. u.id < id) us → find_first (λ u. u.id == id) us ≡ none
no_user id [] h = refl
no_user id (u ∷ us) h = ground (arith, h.0, no_user id us h.1)

module _ (identity : ProviderIdentity) (s : State) where
  abbrev result : Result User × State
  result = resolve_or_create_user_identity identity s

  abbrev free_plan_of : Uuid
  free_plan_of = elim (get_or_create_free_plan s).0 [ ok plan ↦ plan.id | err e ↦ 0 ]

  abbrev user : User
  user = new_user identity s.next_uuid free_plan_of s.clock

  abbrev linked : AuthIdentity
  linked = new_identity identity (s.next_uuid + 1) s.next_uuid s.clock

  create_user_lem :
      let (r, t) = create_user identity s in
      (r ≡ ok user)
      × (t.users ≡ s.users ++ user ∷ [])
      × (t.auth_identities ≡ s.auth_identities ++ linked ∷ [])
      × (t.next_uuid ≡ s.next_uuid + 2)
  unfolding create_user get_or_create_free_plan
  create_user_lem = (ground arith, ground arith, ground arith, ground arith)

  abbrev created : State
  created = (create_user identity s).1

  new_email :
      find_first (has_email identity.email) s.users ≡ none
      → All (λ u. u.email ≢ identity.email) s.users
  new_email e =
      All-imp _ _ s.users (λ u h. ground (arith, h, eq_iff u.email identity.email))
        (find_first-none (has_email identity.email) s.users e)

  new_link :
      find_first (is_identity identity) s.auth_identities ≡ none
      → All (λ a. Apart a linked) s.auth_identities
  new_link e =
      All-imp _ _ s.auth_identities
        (λ a h (same_provider, same_subject). ground (
          arith,
          h,
          same_provider,
          same_subject,
          eq_iff a.provider identity.provider,
          eq_iff a.provider_subject identity.provider_subject,
        ))
        (find_first-none (is_identity identity) s.auth_identities e)

  -- A stored user is still stored, and so is the new one.
  keeps_user : (id : Uuid) (u : User) → get_user id s ≡ some u → get_user id created ≡ some u
  keeps_user id u e =
      let (_, users, _, _) = create_user_lem in
      rw users (rw (find_first-append (λ v. v.id == id) s.users (user ∷ [])) (rw e refl))

  has_user : All (λ u. u.id < s.next_uuid) s.users → get_user s.next_uuid created ≡ some user
  has_user fresh =
      let (_, users, _, _) = create_user_lem in
      rw users (
        rw (find_first-append (λ v. v.id == s.next_uuid) s.users (user ∷ []))
          (rw (no_user s.next_uuid s.users fresh) (ground arith)))

  create_user-Accounts :
      Accounts s
      → find_first (is_identity identity) s.auth_identities ≡ none
      → find_first (has_email identity.email) s.users ≡ none
      → Accounts created
  create_user-Accounts h unlinked unregistered =
      let (_, users, identities, next) = create_user_lem in
      record {
        emails = rw users (
            Pairwise-append (λ u v. u.email ≢ v.email) s.users user h.emails
              (new_email unregistered));
        identities =
            rw identities
              (Pairwise-append Apart s.auth_identities linked h.identities (new_link unlinked));
        fresh =
            rw (users, next)
              (All-append (λ u. u.id < s.next_uuid + 2) s.users (user ∷ [])
                (All-imp _ _ s.users (λ u k. omega (arith, k)) h.fresh) (omega arith, tt));
        owners = rw identities (
            All-append (λ a. (u : User) × (get_user a.user_id created ≡ some u)) s.auth_identities
              (linked ∷ [])
              (All-imp _ _ s.auth_identities (λ a (u, e). (u, keeps_user a.user_id u e)) h.owners)
              ((user, has_user h.fresh), tt));
      }

  abbrev pub Unlinked : Type 0
  Unlinked = find_first (is_identity identity) s.auth_identities ≡ none

  is_linked : is_identity identity linked ≡ true
  is_linked = ground (
    arith,
    eq_iff identity.provider identity.provider,
    eq_iff identity.provider_subject identity.provider_subject,
  )

  -- The new account is found by its identity.
  again :
      Accounts s → Unlinked → resolve_or_create_user_identity identity created ≡ (ok user, created)
  unfolding resolve_or_create_user_identity known_user
  again h unlinked =
      let (_, _, identities, _) = create_user_lem in
      let found : find_first (is_identity identity) created.auth_identities ≡ some linked =
        rw identities (
          find_first-append (is_identity identity) s.auth_identities (linked ∷ [])
          ∙ rw (unlinked, is_linked) refl) in
      rw (resolve_or_create_user_identity, found) (ground (arith, has_user h.fresh))

  registers :
      Unlinked
      → find_first (has_email identity.email) s.users ≡ none
      → result ≡ create_user identity s
  unfolding resolve_or_create_user_identity
  registers e f = rw (resolve_or_create_user_identity, e, f) refl

  refuses :
      (v : User)
      → Unlinked
      → find_first (has_email identity.email) s.users ≡ some v
      → result ≡ (err account_linking_required, s)
  unfolding resolve_or_create_user_identity
  refuses v e f = rw (resolve_or_create_user_identity, e, f) refl

  signs_in :
      (a : AuthIdentity)
      → find_first (is_identity identity) s.auth_identities ≡ some a
      → result ≡ known_user a s
  unfolding resolve_or_create_user_identity
  signs_in a e = rw (resolve_or_create_user_identity, e) refl

  known_user-same : (a : AuthIdentity) → (known_user a s).1 ≡ s
  unfolding known_user
  known_user-same a = ground arith

  -- For accounts that are kept apart: an identity that is linked signs in its user, if the user is
  -- active, and nothing changes; one that is not linked is refused, and nothing changes, if its e-mail
  -- address is registered; else it makes a new active account with that address, beside which every
  -- other user is as before, and the same identity signs in that account from then on.
  pub resolve_or_create_user_identity_lem :
      Accounts s
      → ((a : AuthIdentity) × (u : User) × (find_first (is_identity identity) s.auth_identities
            ≡ some a)
          × (get_user a.user_id s ≡ some u)
          × (result ≡ (if u.is_active then ok u else err account_inactive, s)))
        ⊎ (Unlinked
            × (((v : User) × (find_first (has_email identity.email) s.users ≡ some v)
                  × (result ≡ (err account_linking_required, s)))
                ⊎ ((u : User) × (find_first (has_email identity.email) s.users ≡ none)
                    × (result.0 ≡ ok u)
                    × (u.email ≡ identity.email)
                    × (u.is_active ≡ true)
                    × (result.1.users ≡ s.users ++ u ∷ [])
                    × (resolve_or_create_user_identity identity result.1 ≡ (ok u, result.1)))))
  unfolding known_user
  resolve_or_create_user_identity_lem h =
      elim (Option-cases (find_first (is_identity identity) s.auth_identities)) [
        | inr (a, e) ↦
            let (u, owned) =
              All-find_first (λ b. (u : User) × (get_user b.user_id s ≡ some u))
                (is_identity identity) s.auth_identities h.owners e in
            inl (a, u, e, owned, signs_in a e ∙ ground (arith, owned))
        | inl e ↦ elim (Option-cases (find_first (has_email identity.email) s.users)) [
          | inr (v, f) ↦ inr (e, inl (v, f, refuses v e f))
          | inl f ↦
              let (r, users, _, _) = create_user_lem in
              inr (
                e,
                inr (
                  user,
                  f,
                  ap (λ q. q.0) (registers e f) ∙ r,
                  refl,
                  refl,
                  ap (λ q. q.1.users) (registers e f) ∙ users,
                  rw (registers e f) (again h e),
                ),
              )
        ]
      ]

  -- Accounts stay apart: after the sign-in with any identity, no two users have an e-mail address in
  -- common, no two identities are the same, and every identity has its user, if that was so before.
  pub resolve_or_create_user_identity-Accounts : Accounts s → Accounts result.1
  resolve_or_create_user_identity-Accounts h =
      elim (Option-cases (find_first (is_identity identity) s.auth_identities)) [
        | inr (a, e) ↦ rw (signs_in a e) (rw (known_user-same a) h)
        | inl e ↦ elim (Option-cases (find_first (has_email identity.email) s.users)) [
          | inr (v, f) ↦ rw (refuses v e f) h
          | inl f ↦ rw (registers e f) (create_user-Accounts h e f)
        ]
      ]
