-- ===== src/Store/Keeps.antt =====
-- Code that leaves a part of the state as it is, whatever its result.
use behaviour_sim_api.Base.{sym, ap, ◌≡◌, ◌∙◌, inl, inr, Bool, true, false, if◌then◌else◌}
use behaviour_sim_api.Store.State.{State}
use behaviour_sim_api.Store.Action.{
  Action, Error, ok, catch, Result-cases, ◌>>=◌, ◌>>◌, bind_ok, bind_err, catch_ok, catch_err,
  bind_inv,
}

module _ {ℓ} {X : Type ℓ} (part : State → X) where
  abbrev pub Keeps : {A : Type 0} → Action A → Type ℓ
  Keeps m = (s : State) → part (m s).1 ≡ part s

  module _ {A B : Type 0} where
    pub bind-Keeps :
        (m : Action A) (f : A → Action B) → Keeps m → ((a : A) → Keeps (f a)) → Keeps (m >>= f)
    bind-Keeps m f h k s = elim (Result-cases (m s).0) [
      | inl (a, e) ↦ rw (bind_ok m f s (λ i. (e i, (m s).1))) (k a (m s).1 ∙ h s)
      | inr (x, e) ↦ rw (bind_err m f s (λ i. (e i, (m s).1))) (h s)
    ]

    pub then-Keeps : (m : Action A) (k : Action B) → Keeps m → Keeps k → Keeps (m >> k)
    then-Keeps m k h h' = bind-Keeps m (λ _. k) h (λ _. h')

  module _ {A : Type 0} where
    pub catch-Keeps :
        (m : Action A) (f : Error → Action A)
        → Keeps m
        → ((e : Error) → Keeps (f e))
        → Keeps (catch m f)
    catch-Keeps m f h k s = elim (Result-cases (m s).0) [
      | inl (a, e) ↦ rw (catch_ok m f s (λ i. (e i, (m s).1))) (h s)
      | inr (x, e) ↦ rw (catch_err m f s (λ i. (e i, (m s).1))) (k x (m s).1 ∙ h s)
    ]

    pub if-Keeps : (b : Bool) (m k : Action A) → Keeps m → Keeps k → Keeps (if b then m else k)
    if-Keeps true m k h h' = h
    if-Keeps false m k h h' = h'

-- Steps that do not change the state.
abbrev pub Reads : {A : Type 0} → Action A → Type 0
Reads m = Keeps (λ s. s) m

Reads-same :
    {A : Type 0} (m : Action A) (s : State) (a : A) (t : State) → Reads m → m s ≡ (ok a, t) → t ≡ s
Reads-same m s a t reads e = sym (ap (λ q. q.1) e) ∙ reads s

-- A chain of reads, with what each of its steps has read.
pub Reads-inv :
    {A B : Type 0} (m : Action A) (f : A → Action B) (s : State) (b : B) (t : State)
    → Reads m
    → (m >>= f) s ≡ (ok b, t)
    → (a : A) × ((m s).0 ≡ ok a) × (f a s ≡ (ok b, t))
Reads-inv m f s b t reads e =
    let (a, u, first_step, rest) = bind_inv m f s b t e in
    let same = Reads-same m s a u reads first_step in (a, ap (λ q. q.0) first_step, rw same at rest)
