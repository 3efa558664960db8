-- ===== src/Base/Tables.antt =====
-- A database table as a list of rows: the statements of app/ that select, update, delete and count
-- rows by a condition, and the laws that the components share.
use Prim.Native.Nat.{ℕ, ◌+◌, ◌<◌}
use mathlib.Core.Path.{◌≡◌, refl}
use mathlib.Core.Logic.{◌≢◌, inl, inr}
use mathlib.Core.Bool.{Bool, true, false, ◌&&◌}
use mathlib.Core.Option.{Option, none, some}
use mathlib.Core.List.{List, [], ◌∷◌, ◌++◌}
use native.Mathlib.Omega.{arith}
use behaviour_sim_api.Base.Tests.{if◌then◌else◌, ◌==◌, Bool-cases, ==_refl}
use behaviour_sim_api.Base.Lists.{All, All-imp, All-append, length}

module _ {ℓ} {A : Type ℓ} where
  -- `db.scalars(select(A).where(p)).first()`
  abbrev pub find_first : (A → Bool) → List A → Option A
  find_first p [] = none
  find_first p (x ∷ xs) = if p x then some x else find_first p xs

  -- `select(A).where(p)`
  abbrev pub select_where : (A → Bool) → List A → List A
  select_where p [] = []
  select_where p (x ∷ xs) = let rest = select_where p xs in if p x then x ∷ rest else rest

  -- `update(A).where(p).values(...)`
  abbrev pub update_where : (A → Bool) → (A → A) → List A → List A
  update_where p f [] = []
  update_where p f (x ∷ xs) = (if p x then f x else x) ∷ update_where p f xs

  -- `delete(A).where(p)`
  abbrev pub delete_where : (A → Bool) → List A → List A
  delete_where p [] = []
  delete_where p (x ∷ xs) = let rest = delete_where p xs in if p x then rest else x ∷ rest

  -- `select(func.count(A.id)).where(p)`
  abbrev pub count_where : (A → Bool) → List A → ℕ
  count_where p [] = 0
  count_where p (x ∷ xs) = (if p x then 1 else 0) + count_where p xs

  pub find_first-holds :
      (p : A → Bool) (xs : List A) (a : A) → find_first p xs ≡ some a → p a ≡ true
  find_first-holds p [] a h = cc
  find_first-holds p (x ∷ xs) a h = ground (arith, find_first-holds p xs a)

  pub find_first-none :
      (p : A → Bool) (xs : List A) → find_first p xs ≡ none → All (λ x. p x ≡ false) xs
  find_first-none p [] e = tt
  find_first-none p (x ∷ xs) e = (ground arith, find_first-none p xs (ground arith))

  pub find_first-other :
      (p q : A → Bool) (xs : List A) (a : A)
      → find_first p xs ≡ some a
      → q a ≡ true
      → find_first q xs ≢ none
  find_first-other p q [] a e h n = cc
  find_first-other p q (x ∷ xs) a e h n = ground (arith, find_first-other p q xs a)

  pub count_where-eq_zero :
      (p : A → Bool) (xs : List A) → count_where p xs ≡ 0 → find_first p xs ≡ none
  count_where-eq_zero p [] h = refl
  count_where-eq_zero p (x ∷ xs) h = ground (arith, count_where-eq_zero p xs)

  pub length-select_where :
      (p : A → Bool) (xs : List A) → length (select_where p xs) ≡ count_where p xs
  length-select_where p [] = refl
  length-select_where p (x ∷ xs) = ground (arith, length-select_where p xs)

  pub count_where-append :
      (p : A → Bool) (xs ys : List A)
      → count_where p (xs ++ ys) ≡ count_where p xs + count_where p ys
  count_where-append p [] ys = omega arith
  count_where-append p (x ∷ xs) ys = omega (arith, count_where-append p xs ys)

  pub All-update_where {κ} :
      (P : A → Type κ) (p : A → Bool) (f : A → A) (xs : List A)
      → ((a : A) → p a ≡ true → P a → P (f a))
      → All P xs
      → All P (update_where p f xs)
  All-update_where P p f [] keep h = tt
  All-update_where P p f (x ∷ xs) keep h = (
    elim (Bool-cases (p x)) [ inl e ↦ rw e (keep x e h.0) | inr e ↦ rw e h.0 ],
    All-update_where P p f xs keep h.1,
  )

  pub All-find_first {κ} :
      (P : A → Type κ) (p : A → Bool) (xs : List A) {a : A}
      → All P xs
      → find_first p xs ≡ some a
      → P a
  All-find_first P p [] h e = cc
  All-find_first P p (x ∷ xs) {a} h e = elim (Bool-cases (p x)) [
    | inl t ↦ let q : x ≡ a = ground arith in rw q at (h.0)
    | inr t ↦ All-find_first P p xs h.1 (ground arith)
  ]

-- A condition in two parts.
module _ {ℓ} {A : Type ℓ} (p q : A → Bool) where
  pub select_where-and :
      (xs : List A) → select_where (λ x. p x && q x) xs ≡ select_where q (select_where p xs)
  select_where-and [] = refl
  select_where-and (x ∷ xs) = ground (arith, select_where-and xs)

  pub count_where-and :
      (xs : List A) → count_where (λ x. p x && q x) xs ≡ count_where q (select_where p xs)
  count_where-and [] = refl
  count_where-and (x ∷ xs) = ground (arith, count_where-and xs)

  pub find_first-and :
      (xs : List A) → find_first (λ x. q x && p x) xs ≡ find_first q (select_where p xs)
  find_first-and [] = refl
  find_first-and (x ∷ xs) = ground (arith, find_first-and xs)

  -- What a deletion leaves, by a condition that the deleted rows do not meet, and by theirs.
  pub find_first-delete_other :
      (xs : List A)
      → ((x : A) → p x ≡ true → q x ≡ false)
      → find_first p (delete_where q xs) ≡ find_first p xs
  find_first-delete_other [] apart = refl
  find_first-delete_other (x ∷ xs) apart = ground (arith, apart x, find_first-delete_other xs apart)

pub find_first-delete_where {ℓ} :
    {A : Type ℓ} (p : A → Bool) (xs : List A) → find_first p (delete_where p xs) ≡ none
find_first-delete_where p [] = refl
find_first-delete_where p (x ∷ xs) = ground (arith, find_first-delete_where p xs)

-- Rows with a key.
module _ {ℓ} {A : Type ℓ} (key : A → ℕ) where
  abbrev pub UniqueKeys : List A → Type 0
  UniqueKeys [] = Unit
  UniqueKeys (x ∷ xs) = All (λ y. key y ≢ key x) xs × UniqueKeys xs

  not-find_first :
      (k : ℕ) (p : A → Bool) (xs : List A) {a : A}
      → All (λ y. key y ≢ k) xs
      → find_first p xs ≡ some a
      → key a ≢ k
  not-find_first k p xs h e = All-find_first (λ y. key y ≢ k) p xs h e

  -- A row found by any condition is the row with its key.
  pub find_first-key :
      (p : A → Bool) (xs : List A) (a : A)
      → UniqueKeys xs
      → find_first p xs ≡ some a
      → find_first (λ x. key x == key a) xs ≡ some a
  find_first-key p [] a u e = cc
  find_first-key p (x ∷ xs) a u e = elim (Bool-cases (p x)) [
    | inl t ↦ let q : x ≡ a = ground arith in rw q (rw (==_refl (key a)))
    | inr t ↦
        let e' : find_first p xs ≡ some a = ground arith in
        ground (arith, not-find_first (key x) p xs u.0 e', find_first-key p xs a u.1 e')
  ]

  pub UniqueKeys-update_where :
      (p : A → Bool) (f : A → A) (xs : List A)
      → ((a : A) → p a ≡ true → key (f a) ≡ key a)
      → UniqueKeys xs
      → UniqueKeys (update_where p f xs)
  UniqueKeys-update_where p f [] keep u = tt
  UniqueKeys-update_where p f (x ∷ xs) keep u = (
    rw (key-if x) (All-update_where (λ y. key y ≢ key x) p f xs (λ a e h. rw (keep a e) h) u.0),
    UniqueKeys-update_where p f xs keep u.1,
  )
    where
      key-if : (x : A) → key (if p x then f x else x) ≡ key x
      key-if x = elim (Bool-cases (p x)) [ inl e ↦ rw e (keep x e) | inr e ↦ rw e ]

  -- A row with a new key goes to the end.
  pub UniqueKeys-append :
      (xs : List A) (a : A)
      → UniqueKeys xs
      → All (λ x. key x < key a) xs
      → UniqueKeys (xs ++ a ∷ [])
  UniqueKeys-append [] a u h = (tt, tt)
  UniqueKeys-append (x ∷ xs) a u h = (
    All-append (λ y. key y ≢ key x) xs (a ∷ []) u.0 (omega arith, tt),
    UniqueKeys-append xs a u.1 h.1,
  )

module _ {ℓ} {A : Type ℓ} (key : A → ℕ) where
  count_where-no_key :
      (k : ℕ) (q : A → Bool) (xs : List A)
      → All (λ y. key y ≢ k) xs
      → count_where (λ x. key x == k && q x) xs ≡ 0
  count_where-no_key k q [] h = refl
  count_where-no_key k q (x ∷ xs) h = ground (arith, h.0, count_where-no_key k q xs h.1)

  -- The row with a key is counted, or no row is.
  pub count_where-key :
      (q : A → Bool) (xs : List A) (a : A)
      → UniqueKeys key xs
      → find_first (λ x. key x == key a) xs ≡ some a
      → count_where (λ x. key x == key a && q x) xs ≡ (if q a then 1 else 0)
  count_where-key q [] a u e = cc
  count_where-key q (x ∷ xs) a u e = elim (Bool-cases (key x == key a)) [
    | inl t ↦
        let same : x ≡ a = ground arith in
        let rest : count_where (λ y. key y == key a && q y) xs ≡ 0 =
          count_where-no_key (key a) q xs (rw same at u.0) in
        rw same (ground (arith, rest))
    | inr t ↦ ground (arith, count_where-key q xs a u.1 (ground arith))
  ]

module _ {ℓ} {A : Type ℓ} where
  -- The change of a row that an update makes.
  abbrev pub changed : (A → Bool) → (A → A) → Option A → Option A
  changed q f none = none
  changed q f (some a) = some (if q a then f a else a)

  pub find_first-update_where :
      (p q : A → Bool) (f : A → A) (xs : List A)
      → ((a : A) → q a ≡ true → p (f a) ≡ p a)
      → find_first p (update_where q f xs) ≡ changed q f (find_first p xs)
  find_first-update_where p q f [] keep = refl
  find_first-update_where p q f (x ∷ xs) keep =
      ground (arith, keep x, find_first-update_where p q f xs keep)

  -- The rows of the first list come first.
  pub find_first-append :
      (p : A → Bool) (xs ys : List A)
      → find_first p (xs ++ ys)
        ≡ elim (find_first p xs) [ none ↦ find_first p ys | some a ↦ some a ]
  find_first-append p [] ys = refl
  find_first-append p (x ∷ xs) ys = ground (arith, find_first-append p xs ys)

  pub count_where-pos :
      (p q : A → Bool) (xs : List A) (a : A)
      → find_first p xs ≡ some a
      → q a ≡ true
      → 0 < count_where q xs
  count_where-pos p q [] a e h = cc
  count_where-pos p q (x ∷ xs) a e h = ground (arith, count_where-pos p q xs a)

update_where-no_key {ℓ} :
    {A : Type ℓ} (key : A → ℕ) (k : ℕ) (b : A) (xs : List A)
    → All (λ y. key y ≢ k) xs
    → update_where (λ x. key x == k) (λ _. b) xs ≡ xs
update_where-no_key key k b [] h = refl
update_where-no_key key k b (x ∷ xs) h = ground (arith, h.0, update_where-no_key key k b xs h.1)

-- Putting `b` in the place of the row with its key changes a count by what `a` and `b` count.
pub count_where-update_key {ℓ} :
    {A : Type ℓ} (key : A → ℕ) (p : A → Bool) (xs : List A) (a b : A)
    → UniqueKeys key xs
    → key a ≡ key b
    → find_first (λ x. key x == key b) xs ≡ some a
    → count_where p (update_where (λ x. key x == key b) (λ _. b) xs) + (if p a then 1 else 0)
      ≡ count_where p xs + (if p b then 1 else 0)
count_where-update_key key p [] a b u k e = cc
count_where-update_key key p (x ∷ xs) a b u k e = elim (Bool-cases (key x == key b)) [
  | inl t ↦
      let same : x ≡ a = ground arith in
      rw t (
        ground (
          arith,
          same,
          update_where-no_key key (key b) b xs (All-imp _ _ xs (λ y d. ground arith) u.0),
        ))
  | inr t ↦ rw t (ground (arith, count_where-update_key key p xs a b u.1 k))
]
