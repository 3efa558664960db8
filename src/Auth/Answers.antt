-- ===== src/Auth/Answers.antt =====
-- What the providers of app/auth/providers have answered to an access token when they yield an identity.
use behaviour_sim_api.Base.{
  ◌≡◌, ap, sym, refl, inl, inr, arith, Bool, true, ◌&&◌, Option, none, some, List, [], ◌∷◌, String,
  ◌==◌, Bool-cases, Option-cases, find_first, find_first-holds,
}
use behaviour_sim_api.Store.State.{State}
use behaviour_sim_api.Store.Action.{Error, ok, pure}
use behaviour_sim_api.Store.Keeps.{Reads, Reads-inv}
use behaviour_sim_api.Worker.Order.{Occurs, first, later}
use behaviour_sim_api.Auth.Identities.{ProviderIdentity}
use behaviour_sim_api.Auth.Providers.{
  Reply, answered, unreachable, Remote, GithubEmail, GithubUser, GoogleUser, body_of, required,
  truthy, primary_email, verified_email, choose_email, validated, github_network, google_incomplete,
  identity_failed, github_identity, google_identity, github_from_user, github_from_subject,
  github_from_emails, google_from_user, google_from_sub, google_from_email, github_get_identity,
  google_get_identity,
}

-- GitHub has answered to the access token with this identity's user, and says that the e-mail address
-- is verified.
pub record GithubSays (remote : Remote) (token : String) (identity : ProviderIdentity)
    : Type 0 where
  pub user : GithubUser
  pub emails : List GithubEmail
  pub entry : GithubEmail
  pub email : String
  pub provider : identity.provider ≡ "github"
  pub profile : remote.github_user token ≡ answered 200 user
  pub subject : user.id ≡ some identity.provider_subject
  pub addresses : remote.github_emails token ≡ answered 200 emails
  pub among : Occurs entry emails
  pub verified : entry.verified ≡ true
  pub address : entry.email ≡ some email
  pub accepted : remote.email_str email ≡ some identity.email

-- The same of Google.
pub record GoogleSays (remote : Remote) (token : String) (identity : ProviderIdentity)
    : Type 0 where
  pub user : GoogleUser
  pub email : String
  pub provider : identity.provider ≡ "google"
  pub profile : remote.google_user token ≡ answered 200 user
  pub subject : user.sub ≡ some identity.provider_subject
  pub verified : user.email_verified ≡ true
  pub address : user.email ≡ some email
  pub accepted : remote.email_str email ≡ some identity.email

find_first-Occurs {ℓ} :
    {A : Type ℓ} (p : A → Bool) (xs : List A) (a : A) → find_first p xs ≡ some a → Occurs a xs
find_first-Occurs p [] a e = cc
find_first-Occurs p (x ∷ xs) a e = elim (Bool-cases (p x)) [
  | inl t ↦ let same : x ≡ a = ground arith in rw same first
  | inr f ↦ later (find_first-Occurs p xs a (ground arith))
]

truthy_lem : (o : Option String) (x : String) → truthy o ≡ some x → o ≡ some x
truthy_lem none x e = cc
truthy_lem (some y) x e = ground arith

-- The chosen address is that of a verified entry.
choose_email_lem :
    (emails : List GithubEmail) (email : String)
    → choose_email emails ≡ some email
    → (e : GithubEmail) × Occurs e emails × (e.verified ≡ true) × (e.email ≡ some email)
unfolding choose_email primary_email verified_email
choose_email_lem emails email chosen =
    let p = λ (e : GithubEmail). e.verified && e.primary in
    let q = λ (e : GithubEmail). e.verified in
    elim (Option-cases (primary_email emails)) [
      | inr (x, f) ↦ elim (Option-cases (find_first p emails)) [
        | inl n ↦ ground (arith, f, n)
        | inr (e, g) ↦
            let same : truthy e.email ≡ some email = ground (arith, chosen, f, g) in
            (
              e,
              find_first-Occurs p emails e g,
              ground (arith, find_first-holds p emails e g),
              truthy_lem e.email email same,
            )
      ]
      | inl f ↦ elim (Option-cases (find_first q emails)) [
        | inl n ↦ ground (arith, chosen, f, n)
        | inr (e, g) ↦
            let same : truthy e.email ≡ some email = ground (arith, chosen, f, g) in
            (
              e,
              find_first-Occurs q emails e g,
              find_first-holds q emails e g,
              truthy_lem e.email email same,
            )
      ]
    ]

pub required-Reads : (x : Error) (o : Option String) → Reads (required x o)
required-Reads x o s = elim (Option-cases (truthy o)) [
  | inl e ↦ rw (required, e) refl
  | inr (a, e) ↦ rw (required, e) refl
]

pub required_lem :
    (x : Error) (o : Option String) (s : State) (a : String)
    → (required x o s).0 ≡ ok a
    → o ≡ some a
required_lem x none s a e = cc
required_lem x (some y) s a e = ground (arith, e)

pub body_of-Reads :
    {A : Type 0} (r : Reply A) (network failed : Error) → Reads (body_of r network failed)
unfolding body_of
body_of-Reads unreachable network failed s = refl
body_of-Reads (answered status body) network failed s = elim (Bool-cases (status == 200)) [
  | inl e ↦ rw (body_of, e) refl
  | inr e ↦ rw (body_of, e) refl
]

pub body_of_lem :
    {A : Type 0} (r : Reply A) (network failed : Error) (s : State) (a : A)
    → (body_of r network failed s).0 ≡ ok a
    → r ≡ answered 200 a
unfolding body_of
body_of_lem unreachable network failed s a e = cc
body_of_lem (answered status body) network failed s a e = ground (arith, e)

validated_lem :
    (remote : Remote) (email : String) (make : String → ProviderIdentity) (s t : State)
    (identity : ProviderIdentity)
    → validated remote email make s ≡ (ok identity, t)
    → (address : String) × (remote.email_str email ≡ some address)
      × (make address ≡ identity)
      × (t ≡ s)
unfolding validated
validated_lem remote email make s t identity e = elim (Option-cases (remote.email_str email)) [
  | inl none_such ↦ ground (arith, ap (λ q. q.0) (rw (none_such, validated) at e))
  | inr (address, is_one) ↦
      let e' : pure (make address) s ≡ (ok identity, t) = rw (is_one, validated) at e in
      (address, is_one, ground (arith, ap (λ q. q.0) e'), sym (ap (λ q. q.1) e'))
]

module _ (remote : Remote) (s t : State) (token : String) (identity : ProviderIdentity) where
  pub github_confirms :
      github_get_identity remote token s ≡ (ok identity, t)
      → GithubSays remote token identity × (t ≡ s)
  unfolding github_get_identity github_from_user github_from_subject github_from_emails
  github_confirms e =
      let (user, known, e1) =
        Reads-inv
          (body_of (remote.github_user token) github_network
            (identity_failed 400 "Failed to retrieve user profile from GitHub."))
          (github_from_user remote token) s identity t (body_of-Reads _ _ _) e in
      let no_id = identity_failed 400 "GitHub user profile missing identifier." in
      let (subject, has_id, e2) =
        Reads-inv (required no_id user.id) (github_from_subject remote token user) s identity t
          (required-Reads _ user.id) e1 in
      let (emails, got, e3) =
        Reads-inv
          (body_of (remote.github_emails token) github_network
            (identity_failed 400 "Failed to retrieve verified email from GitHub."))
          (github_from_emails remote user subject) s identity t (body_of-Reads _ _ _) e2 in
      let (email, chosen, e4) =
        Reads-inv
          (required (identity_failed 400 "No verified email address found on GitHub account.")
            (choose_email emails))
          (λ email. validated remote email (github_identity user subject)) s identity t
          (required-Reads _ (choose_email emails)) e3 in
      let (entry, among, verified, address) =
        choose_email_lem emails email (required_lem _ (choose_email emails) s email chosen) in
      let (normal, accepted, same, same_state) =
        validated_lem remote email (github_identity user subject) s t identity e4 in
      let found : GithubSays remote token (github_identity user subject normal) = record {
        user = user;
        emails = emails;
        entry = entry;
        email = email;
        provider = refl;
        profile = body_of_lem _ _ _ s user known;
        subject = required_lem no_id user.id s subject has_id;
        addresses = body_of_lem _ _ _ s emails got;
        among = among;
        verified = verified;
        address = address;
        accepted = accepted;
      } in
      (rw same at found, same_state)

  pub google_confirms :
      google_get_identity remote token s ≡ (ok identity, t)
      → GoogleSays remote token identity × (t ≡ s)
  unfolding google_get_identity google_from_user google_from_sub google_from_email
  google_confirms e =
      let (profile, got, e1) =
        Reads-inv
          (body_of (remote.google_user token)
            (identity_failed 502 "Network error communicating with Google userinfo service.")
            (identity_failed 400 "Failed to retrieve user profile from Google."))
          (google_from_user remote) s identity t (body_of-Reads _ _ _) e in
      let (sub, has_sub, e2) =
        Reads-inv (required google_incomplete profile.sub) (google_from_sub remote profile) s
          identity t (required-Reads _ profile.sub) e1 in
      let (email, has_email, e3) =
        Reads-inv (required google_incomplete profile.email) (google_from_email remote profile sub)
          s identity t (required-Reads _ profile.email) e2 in
      elim (Bool-cases profile.email_verified) [
        | inr unverified ↦ ground (arith, ap (λ q. q.0) e3, unverified)
        | inl verified ↦
            let e4 : validated remote email (google_identity profile sub) s ≡ (ok identity, t) =
              rw verified at e3 in
            let (normal, accepted, same, same_state) =
              validated_lem remote email (google_identity profile sub) s t identity e4 in
            let found : GoogleSays remote token (google_identity profile sub normal) = record {
              user = profile;
              email = email;
              provider = refl {a = "google"};
              profile = body_of_lem _ _ _ s profile got;
              subject = required_lem google_incomplete profile.sub s sub has_sub;
              verified = verified;
              address = required_lem google_incomplete profile.email s email has_email;
              accepted = accepted;
            } in
            (rw same at found, same_state)
      ]
