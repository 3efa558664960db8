-- ===== src/Store/Action.antt =====
-- Code that changes the state and may raise. The state comes back after a raise too: what was
-- committed stays committed.
use behaviour_sim_api.Base.{
  ℕ, ◌+◌, ◌≡◌, ◌⊎◌, inl, inr, refl, ap, sym, ◌∙◌, arith, Bool, List, String, if◌then◌else◌,
}
use behaviour_sim_api.Store.Rows.{Uuid, Instant, Datum, Message}
use behaviour_sim_api.Store.State.{State}

-- `BehaviorSimAPIError` of app/core/errors.py; `headers` is empty for `None`.
pub record ApiError : Type 0 where
  pub message : Message
  pub status_code : ℕ
  pub error_code : String  -- details["code"]
  pub details : List (String × Datum)  -- the other details
  pub headers : List (String × Datum)

-- Any other exception is `crash`.
pub data Error : Type 0 where
  api_error : ApiError → Error
  crash : Error

pub data Result {ℓ} (A : Type ℓ) : Type ℓ where
  ok : A → Result A
  err : Error → Result A

abbrev pub Action : Type 0 → Type 0
Action A = State → Result A × State

module _ {A : Type 0} where
  abbrev pub pure : A → Action A
  pure a s = (ok a, s)

  abbrev pub raise : Error → Action A
  raise e s = (err e, s)

  abbrev pub gets : (State → A) → Action A
  gets f s = (ok (f s), s)

infixl 5 ◌>>=◌ ◌>>◌
abbrev pub ◌>>=◌ : {A B : Type 0} → Action A → (A → Action B) → Action B
◌>>=◌ m f s = let (r, s') = m s in elim r [ ok a ↦ f a s' | err e ↦ (err e, s') ]

abbrev pub ◌>>◌ : {A B : Type 0} → Action A → Action B → Action B
m >> k = m >>= λ _. k

-- `try: m except ... as e: h(e)`
abbrev pub catch : {A : Type 0} → Action A → (Error → Action A) → Action A
catch m h s = let (r, s') = m s in elim r [ ok a ↦ (ok a, s') | err e ↦ h e s' ]

-- `try: m finally: f`
abbrev pub finally : {A : Type 0} → Action A → (State → State) → Action A
finally m f s = let (r, s') = m s in (r, f s')

abbrev pub raise_if : Bool → Error → Action (Unit {0})
raise_if c e s = (if c then err e else ok tt, s)

abbrev pub modify : (State → State) → Action (Unit {0})
modify f s = (ok tt, f s)

abbrev pub utc_now : Action Instant
utc_now s = (ok s.clock, s)

-- `uuid.uuid4()`: an id that was not given before.
abbrev pub uuid4 : Action Uuid
uuid4 s = (ok s.next_uuid, record s { next_uuid = s.next_uuid + 1 })

-- A step of a `do` block whose first action is known.
module _ {A B : Type 0} where
  pub bind_ok :
      (m : Action A) (f : A → Action B) (s : State) {a : A} {t : State}
      → m s ≡ (ok a, t)
      → (m >>= f) s ≡ f a t
  bind_ok m f s {a} {t} e = ap (λ r. elim r.0 [ ok b ↦ f b r.1 | err x ↦ (err x, r.1) ]) e

  pub bind_err :
      (m : Action A) (f : A → Action B) (s : State) {x : Error} {t : State}
      → m s ≡ (err x, t)
      → (m >>= f) s ≡ (err x, t)
  bind_err m f s e = ap (λ r. elim r.0 [ ok b ↦ f b r.1 | err x ↦ (err x, r.1) ]) e

module _ {A : Type 0} where
  pub catch_ok :
      (m : Action A) (h : Error → Action A) (s : State) {a : A} {t : State}
      → m s ≡ (ok a, t)
      → catch m h s ≡ (ok a, t)
  catch_ok m h s e = ap (λ r. elim r.0 [ ok b ↦ (ok b, r.1) | err x ↦ h x r.1 ]) e

  pub catch_err :
      (m : Action A) (h : Error → Action A) (s : State) {x : Error} {t : State}
      → m s ≡ (err x, t)
      → catch m h s ≡ h x t
  catch_err m h s e = ap (λ r. elim r.0 [ ok b ↦ (ok b, r.1) | err y ↦ h y r.1 ]) e

pub Result-cases {ℓ} :
    {A : Type ℓ} (r : Result A) → ((a : A) × (r ≡ ok a)) ⊎ ((e : Error) × (r ≡ err e))
Result-cases (ok a) = inl (a, refl)
Result-cases (err e) = inr (e, refl)

-- What a chain that has succeeded has done.
pub bind_inv :
    {A B : Type 0} (m : Action A) (f : A → Action B) (s : State) (b : B) (t : State)
    → (m >>= f) s ≡ (ok b, t)
    → (a : A) × (u : State) × (m s ≡ (ok a, u)) × (f a u ≡ (ok b, t))
bind_inv m f s b t e = elim (Result-cases (m s).0) [
  | inl (a, r) ↦
      let first : m s ≡ (ok a, (m s).1) = λ i. (r i, (m s).1) in
      (a, (m s).1, first, sym (bind_ok m f s first) ∙ e)
  | inr (x, r) ↦
      let fails = sym (bind_err m f s (λ i. (r i, (m s).1))) ∙ e in
      ground (arith, ap (λ q. q.0) fails)
]
