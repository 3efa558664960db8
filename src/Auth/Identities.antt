-- ===== src/Auth/Identities.antt =====
-- `resolve_or_create_user_identity` of app/auth/service.py. Names and e-mail addresses are compared as
-- the database compares them, by their code points.
use behaviour_sim_api.Base.{
  Bool, true, ◌&&◌, Option, none, some, [], ◌∷◌, ◌++◌, String, str_eq, find_first, if◌then◌else◌,
}
use behaviour_sim_api.Store.Rows.{Uuid, Instant, User, AuthIdentity}
use behaviour_sim_api.Store.Action.{
  Error, api_error, crash, Action, pure, raise, modify, utc_now, uuid4, ◌>>=◌, ◌>>◌,
}
use behaviour_sim_api.Usage.{get_or_create_free_plan}
use behaviour_sim_api.Auth.Keys.{get_user}

pub record ProviderIdentity : Type 0 where
  pub provider : String
  pub provider_subject : String
  pub email : String
  pub display_name : Option String

unfoldable pub account_inactive : Error
account_inactive = api_error (record {
  message = record { template = "Your account is deactivated."; values = [] };
  status_code = 403;
  error_code = "account_inactive";
  details = [];
  headers = [];
})

unfoldable pub account_linking_required : Error
account_linking_required = api_error (record {
  message = record {
    template =
        "An account with this email address already exists. Please sign in with your original provider to link identities.";
    values = [];
  };
  status_code = 409;
  error_code = "account_linking_required";
  details = [];
  headers = [];
})

abbrev pub is_identity : ProviderIdentity → AuthIdentity → Bool
is_identity identity a =
    str_eq a.provider identity.provider && str_eq a.provider_subject identity.provider_subject

abbrev pub has_email : String → User → Bool
has_email email u = str_eq u.email email

-- The user of a known identity. A row of an identity has its user, by the foreign key.
unfoldable pub known_user : AuthIdentity → Action User
known_user a s = elim (get_user a.user_id s) [
  | none ↦ raise crash s
  | some user ↦ if user.is_active then pure user s else raise account_inactive s
]

abbrev pub new_user : ProviderIdentity → Uuid → Uuid → Instant → User
new_user identity id plan_id now = record {
  id = id;
  email = identity.email;
  display_name = identity.display_name;
  is_active = true;
  plan_id = plan_id;
  created_at = now;
  updated_at = now;
}

abbrev pub new_identity : ProviderIdentity → Uuid → Uuid → Instant → AuthIdentity
new_identity identity id user_id now = record {
  id = id;
  user_id = user_id;
  provider = identity.provider;
  provider_subject = identity.provider_subject;
  created_at = now;
  updated_at = now;
}

-- Step 3.
unfoldable pub create_user : ProviderIdentity → Action User
create_user identity = do
  plan ← get_or_create_free_plan
  now ← utc_now
  user_id ← uuid4
  modify (λ s. record s { users = s.users ++ new_user identity user_id plan.id now ∷ [] })
  id ← uuid4
  modify (λ s. record s {
    auth_identities = s.auth_identities ++ new_identity identity id user_id now ∷ [];
  })
  pure (new_user identity user_id plan.id now)

unfoldable pub resolve_or_create_user_identity : ProviderIdentity → Action User
resolve_or_create_user_identity identity s =
    elim (find_first (is_identity identity) s.auth_identities) [
      | some a ↦ known_user a s
      | none ↦ elim (find_first (has_email identity.email) s.users) [
        | some user ↦ raise account_linking_required s
        | none ↦ create_user identity s
      ]
    ]
