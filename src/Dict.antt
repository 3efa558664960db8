-- ===== src/Dict.antt =====
-- Python's `dict` in insertion order, over any type of keys whose equality the program tests:
-- numbers, strings, and texts given by their code points.
use behaviour_sim_api.Base.{
  ℕ, ◌≡◌, refl, ◌↔◌, Bool, true, false, ◌&&◌, Option, none, some, List, [], ◌∷◌, String, arith,
  ◌==◌ as nat_eq, ==_iff, str_eq, eq_iff, if◌then◌else◌, ◌+◌,
}

pub record Eq {ℓ} (A : Type ℓ) : Type ℓ where
  pub beq : A → A → Bool
  pub beq_iff : (a b : A) → (beq a b ≡ true) ↔ (a ≡ b)

-- Equality of texts, code point by code point.
abbrev pub text_eq : List ℕ → List ℕ → Bool
text_eq [] [] = true
text_eq [] (b ∷ bs) = false
text_eq (a ∷ as') [] = false
text_eq (a ∷ as') (b ∷ bs) = nat_eq a b && text_eq as' bs

pub text_eq_iff : (s t : List ℕ) → (text_eq s t ≡ true) ↔ (s ≡ t)
text_eq_iff [] [] = ground arith
text_eq_iff [] (b ∷ bs) = ground arith
text_eq_iff (a ∷ s) [] = ground arith
text_eq_iff (a ∷ s) (b ∷ t) = ground (arith, text_eq_iff s t)

instance abbrev pub Eq-ℕ : Eq ℕ
Eq-ℕ = record { beq = nat_eq; beq_iff = ==_iff }

instance abbrev pub Eq-String : Eq String
Eq-String = record { beq = str_eq; beq_iff = eq_iff }

instance abbrev pub Eq-Text : Eq (List ℕ)
Eq-Text = record { beq = text_eq; beq_iff = text_eq_iff }

-- One operator for every type of keys.
infix 50 ◌==◌
abbrev pub ◌==◌ {ℓ} : {A : Type ℓ} ⦃e : Eq A⦄ → A → A → Bool
◌==◌ ⦃e⦄ = e.beq

abbrev pub Dict {ℓ κ} : Type ℓ → Type κ → Type (ℓ ⊔ κ)
Dict K V = List (K × V)

module _ {ℓ κ} {K : Type ℓ} {V : Type κ} ⦃e : Eq K⦄ where
  -- `d.get(k)`
  abbrev pub get : K → Dict K V → Option V
  get k [] = none
  get k ((j, v) ∷ d) = if j == k then some v else get k d

  -- `d[k] = v`
  abbrev pub put : K → V → Dict K V → Dict K V
  put k v [] = (k, v) ∷ []
  put k v ((j, w) ∷ d) = if j == k then (k, v) ∷ d else (j, w) ∷ put k v d

  -- `d.pop(k, None)`
  abbrev pub pop : K → Dict K V → Dict K V
  pop k [] = []
  pop k ((j, v) ∷ d) = let rest = pop k d in if j == k then rest else (j, v) ∷ rest

  pub get-put :
      (k j : K) (v : V) (d : Dict K V) → get j (put k v d) ≡ (if k == j then some v else get j d)
  get-put k j v [] = refl
  get-put k j v ((i, w) ∷ d) =
      ground (arith, e.beq_iff k j, e.beq_iff i k, e.beq_iff i j, get-put k j v d)

  pub get-pop : (k j : K) (d : Dict K V) → get j (pop k d) ≡ (if k == j then none else get j d)
  get-pop k j [] = ground arith
  get-pop k j ((i, w) ∷ d) =
      ground (arith, e.beq_iff k j, e.beq_iff i k, e.beq_iff i j, get-pop k j d)

module _ {ℓ} {K : Type ℓ} ⦃e : Eq K⦄ where
  pub beq_refl : (k : K) → (k == k) ≡ true
  beq_refl k = (e.beq_iff k k).1 refl

  -- `d.get(k, 0)`
  abbrev pub get_count : K → Dict K ℕ → ℕ
  get_count k d = elim (get k d) [ none ↦ 0 | some n ↦ n ]

  -- `d[k] = d.get(k, 0) + 1`
  abbrev pub bump : K → Dict K ℕ → Dict K ℕ
  bump k d = put k (get_count k d + 1) d

  abbrev pub total : Dict K ℕ → ℕ
  total [] = 0
  total ((k, n) ∷ d) = n + total d

  pub total-put : (k : K) (n : ℕ) (d : Dict K ℕ) → total (put k n d) + get_count k d ≡ total d + n
  total-put k n [] = omega arith
  total-put k n ((j, m) ∷ d) = ground (arith, total-put k n d)

  pub total-bump : (k : K) (d : Dict K ℕ) → total (bump k d) ≡ total d + 1
  total-bump k d = omega (arith, total-put k (get_count k d + 1) d)
