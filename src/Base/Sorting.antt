-- ===== src/Base/Sorting.antt =====
-- `ORDER BY` as an insertion sort by a total and transitive test.
use Prim.Native.Nat.{suc, ◌+◌}
use mathlib.Core.Path.{◌≡◌, refl}
use mathlib.Core.Logic.{inl, inr}
use mathlib.Core.Bool.{Bool, true, false}
use mathlib.Core.List.{List, [], ◌∷◌}
use native.Mathlib.Omega.{arith}
use behaviour_sim_api.Base.Tests.{if◌then◌else◌, Bool-cases}
use behaviour_sim_api.Base.Lists.{All, All-imp, length}
use behaviour_sim_api.Base.Tables.{count_where}

module _ {ℓ} {A : Type ℓ} (before : A → A → Bool) where
  unfoldable pub insert_by : A → List A → List A
  insert_by a [] = a ∷ []
  insert_by a (b ∷ bs) = let rest = insert_by a bs in if before a b then a ∷ b ∷ bs else b ∷ rest

  unfoldable pub sort_by : List A → List A
  sort_by [] = []
  sort_by (a ∷ as') = insert_by a (sort_by as')

  -- No entry comes after one that it goes before.
  abbrev pub Sorted : List A → Type 0
  Sorted [] = Unit
  Sorted (a ∷ as') = All (λ b. before a b ≡ true) as' × Sorted as'

  count_where-insert_by :
      (p : A → Bool) (a : A) (bs : List A)
      → count_where p (insert_by a bs) ≡ (if p a then 1 else 0) + count_where p bs
  unfolding insert_by
  count_where-insert_by p a [] = refl
  count_where-insert_by p a (b ∷ bs) = ground (arith, count_where-insert_by p a bs)

  -- Sorting keeps how often each kind of entry occurs.
  pub count_where-sort_by :
      (p : A → Bool) (as' : List A) → count_where p (sort_by as') ≡ count_where p as'
  unfolding sort_by
  count_where-sort_by p [] = refl
  count_where-sort_by p (a ∷ as') =
      ground (arith, count_where-insert_by p a (sort_by as'), count_where-sort_by p as')

  length-insert_by : (a : A) (bs : List A) → length (insert_by a bs) ≡ suc (length bs)
  unfolding insert_by
  length-insert_by a [] = omega arith
  length-insert_by a (b ∷ bs) = ground (arith, length-insert_by a bs)

  pub length-sort_by : (as' : List A) → length (sort_by as') ≡ length as'
  unfolding sort_by
  length-sort_by [] = omega arith
  length-sort_by (a ∷ as') = ground (arith, length-insert_by a (sort_by as'), length-sort_by as')

  pub insert_by-All {κ} :
      (P : A → Type κ) (a : A) (bs : List A) → P a → All P bs → All P (insert_by a bs)
  unfolding insert_by
  insert_by-All P a [] p h = (p, tt)
  insert_by-All P a (b ∷ bs) p h = elim (Bool-cases (before a b)) [
    | inl t ↦ rw t (p, h)
    | inr f ↦ rw f (h.0, insert_by-All P a bs p h.1)
  ]

  pub sort_by-All {κ} : (P : A → Type κ) (as' : List A) → All P as' → All P (sort_by as')
  unfolding sort_by
  sort_by-All P [] h = tt
  sort_by-All P (a ∷ as') h = insert_by-All P a (sort_by as') h.0 (sort_by-All P as' h.1)

  module _ (total : (a b : A) → before a b ≡ false → before b a ≡ true)
      (trans : (a b c : A) → before a b ≡ true → before b c ≡ true → before a c ≡ true) where
    insert_by-Sorted : (a : A) (bs : List A) → Sorted bs → Sorted (insert_by a bs)
    unfolding insert_by
    insert_by-Sorted a [] o = (tt, tt)
    insert_by-Sorted a (b ∷ bs) o = elim (Bool-cases (before a b)) [
      | inl t ↦ rw t ((t, All-imp _ _ bs (λ c h. trans a b c t h) o.0), o)
      | inr f ↦
          rw f (
            insert_by-All (λ c. before b c ≡ true) a bs (total a b f) o.0,
            insert_by-Sorted a bs o.1,
          )
    ]

    pub sort_by-Sorted : (as' : List A) → Sorted (sort_by as')
    unfolding sort_by
    sort_by-Sorted [] = tt
    sort_by-Sorted (a ∷ as') = insert_by-Sorted a (sort_by as') (sort_by-Sorted as')
