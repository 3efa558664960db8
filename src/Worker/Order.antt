-- ===== src/Worker/Order.antt =====
-- Which jobs `claim_next_job` of app/services/worker.py looks at, and in which order.
use behaviour_sim_api.Base.{
  ℕ, zero, suc, ◌≤◌, ◌≡◌, ◌≢◌, sym, ◌⊎◌, refl, inl, inr, arith, Bool, true, false, ◌&&◌, not, List,
  [], ◌∷◌, ◌==◌, take, length, ap, ==_refl, some, find_first, length-take-le, All, All-imp,
  All-take, Bool-cases, select_where, UniqueKeys,
}
use behaviour_sim_api.Store.Rows.{Uuid, Instant, Simulation}
use behaviour_sim_api.Store.State.{State}
use behaviour_sim_api.Jobs.{get_job}
use behaviour_sim_api.Jobs.Lifecycle.{UniqueJobs}
use behaviour_sim_api.Worker.{before, insert_by_age, order_by_age, select_candidates, is_candidate}

pub data Occurs {ℓ} {A : Type ℓ} (a : A) : List A → Type ℓ where
  first : {xs : List A} → Occurs a (a ∷ xs)
  later : {x : A} {xs : List A} → Occurs a xs → Occurs a (x ∷ xs)

-- No later job is older.
abbrev pub Ordered : List Simulation → Type 0
Ordered [] = Unit
Ordered (x ∷ xs) = All (λ y. before x y ≡ true) xs × Ordered xs

before_total : (j k : Simulation) → before j k ≡ false → before k j ≡ true
before_total j k h = ground arith

before_trans : (i j k : Simulation) → before i j ≡ true → before j k ≡ true → before i k ≡ true
before_trans i j k a b = ground arith

module _ {κ} (P : Simulation → Type κ) where
  pub insert_by_age-All :
      (j : Simulation) (js : List Simulation) → P j → All P js → All P (insert_by_age j js)
  unfolding insert_by_age
  insert_by_age-All j [] p h = (p, tt)
  insert_by_age-All j (k ∷ ks) p h = elim (Bool-cases (before j k)) [
    | inl b ↦ rw b (p, h)
    | inr b ↦ rw b (h.0, insert_by_age-All j ks p h.1)
  ]

  pub order_by_age-All : (js : List Simulation) → All P js → All P (order_by_age js)
  unfolding order_by_age
  order_by_age-All [] h = tt
  order_by_age-All (j ∷ js) h = insert_by_age-All j (order_by_age js) h.0 (order_by_age-All js h.1)

insert_by_age-Ordered :
    (j : Simulation) (js : List Simulation) → Ordered js → Ordered (insert_by_age j js)
unfolding insert_by_age
insert_by_age-Ordered j [] o = (tt, tt)
insert_by_age-Ordered j (k ∷ ks) o = elim (Bool-cases (before j k)) [
  | inl b ↦ rw b ((b, All-imp _ _ ks (λ y h. before_trans j k y b h) o.0), o)
  | inr b ↦ rw b (
    insert_by_age-All (λ y. before k y ≡ true) j ks (before_total j k b) o.0,
    insert_by_age-Ordered j ks o.1,
  )
]

pub order_by_age-Ordered : (js : List Simulation) → Ordered (order_by_age js)
unfolding order_by_age
order_by_age-Ordered [] = tt
order_by_age-Ordered (j ∷ js) = insert_by_age-Ordered j (order_by_age js) (order_by_age-Ordered js)

insert_by_age_unique :
    (j : Simulation) (js : List Simulation)
    → All (λ k. k.id ≢ j.id) js
    → UniqueKeys (λ k. k.id) js
    → UniqueKeys (λ k. k.id) (insert_by_age j js)
unfolding insert_by_age
insert_by_age_unique j [] d u = (tt, tt)
insert_by_age_unique j (k ∷ ks) d u = elim (Bool-cases (before j k)) [
  | inl b ↦ rw b (d, u)
  | inr b ↦ rw b (
    insert_by_age-All (λ y. y.id ≢ k.id) j ks (λ e. d.0 (sym e)) u.0,
    insert_by_age_unique j ks d.1 u.1,
  )
]

pub order_by_age_unique :
    (js : List Simulation) → UniqueKeys (λ k. k.id) js → UniqueKeys (λ k. k.id) (order_by_age js)
unfolding order_by_age
order_by_age_unique [] u = tt
order_by_age_unique (j ∷ js) u =
    insert_by_age_unique j (order_by_age js) (order_by_age-All _ js u.0)
      (order_by_age_unique js u.1)

select_where-Occurs {ℓ} :
    {A : Type ℓ} (p : A → Bool) (a : A) (xs : List A)
    → p a ≡ true
    → Occurs a xs
    → Occurs a (select_where p xs)
select_where-Occurs p a [] h o = elim o [ ]
select_where-Occurs p a (_ ∷ xs) h first = rw h first
select_where-Occurs p a (x ∷ xs) h (later o) = elim (Bool-cases (p x)) [
  | inl t ↦ rw t (later (select_where-Occurs p a xs h o))
  | inr t ↦ rw t (select_where-Occurs p a xs h o)
]

insert_by_age-new : (j : Simulation) (js : List Simulation) → Occurs j (insert_by_age j js)
unfolding insert_by_age
insert_by_age-new j [] = first
insert_by_age-new j (k ∷ ks) = elim (Bool-cases (before j k)) [
  | inl b ↦ rw b first
  | inr b ↦ rw b (later (insert_by_age-new j ks))
]

insert_by_age-Occurs :
    (i j : Simulation) (js : List Simulation) → Occurs i js → Occurs i (insert_by_age j js)
unfolding insert_by_age
insert_by_age-Occurs i j [] o = elim o [ ]
insert_by_age-Occurs i j (_ ∷ ks) first = elim (Bool-cases (before j i)) [
  | inl b ↦ rw b (later first)
  | inr b ↦ rw b first
]
insert_by_age-Occurs i j (k ∷ ks) (later o) = elim (Bool-cases (before j k)) [
  | inl b ↦ rw b (later (later o))
  | inr b ↦ rw b (later (insert_by_age-Occurs i j ks o))
]

order_by_age-Occurs :
    (i : Simulation) (js : List Simulation) → Occurs i js → Occurs i (order_by_age js)
unfolding order_by_age
order_by_age-Occurs i [] o = elim o [ ]
order_by_age-Occurs i (_ ∷ js) first = insert_by_age-new i (order_by_age js)
order_by_age-Occurs i (j ∷ js) (later o) =
    insert_by_age-Occurs i j (order_by_age js) (order_by_age-Occurs i js o)

pub All-Occurs :
    (P : Simulation → Type 0) (i : Simulation) (js : List Simulation) → All P js → Occurs i js → P i
All-Occurs P i [] h o = elim o [ ]
All-Occurs P i (_ ∷ js) h first = h.0
All-Occurs P i (j ∷ js) h (later o) = All-Occurs P i js h.1 o

-- A cut of an ordered list holds a member, or is full of members that come before it.
take-Ordered :
    (n : ℕ) (i : Simulation) (js : List Simulation)
    → Ordered js
    → Occurs i js
    → Occurs i (take n js) ⊎ (length (take n js) ≡ n) × All (λ k. before k i ≡ true) (take n js)
take-Ordered zero i js o m = inr (refl, tt)
take-Ordered (suc n) i [] o m = elim m [ ]
take-Ordered (suc n) i (_ ∷ js) o first = inl first
take-Ordered (suc n) i (j ∷ js) o (later m) = elim (take-Ordered n i js o.1 m) [
  | inl k ↦ inl (later k)
  | inr (full, older) ↦ inr (ap suc full, (All-Occurs _ i js o.0 m, older))
]

take-Ordered_keeps : (n : ℕ) (js : List Simulation) → Ordered js → Ordered (take n js)
take-Ordered_keeps zero js o = tt
take-Ordered_keeps (suc n) [] o = tt
take-Ordered_keeps (suc n) (j ∷ js) o = (All-take _ n js o.0, take-Ordered_keeps n js o.1)

pub take_unique :
    (n : ℕ) (js : List Simulation) → UniqueKeys (λ k. k.id) js → UniqueKeys (λ k. k.id) (take n js)
take_unique zero js u = tt
take_unique (suc n) [] u = tt
take_unique (suc n) (j ∷ js) u = (All-take _ n js u.0, take_unique n js u.1)

pub select_where-All :
    (P : Simulation → Type 0) (p : Simulation → Bool) (js : List Simulation)
    → All P js
    → All (λ j. P j × (p j ≡ true)) (select_where p js)
select_where-All P p [] h = tt
select_where-All P p (j ∷ js) h = elim (Bool-cases (p j)) [
  | inl t ↦ rw t ((h.0, t), select_where-All P p js h.1)
  | inr t ↦ rw t (select_where-All P p js h.1)
]

select_where_unique :
    (p : Simulation → Bool) (js : List Simulation)
    → UniqueKeys (λ k. k.id) js
    → UniqueKeys (λ k. k.id) (select_where p js)
select_where_unique p [] u = tt
select_where_unique p (j ∷ js) u = elim (Bool-cases (p j)) [
  | inl t ↦ rw t (
    All-imp _ _ (select_where p js) (λ k h. h.0) (select_where-All _ p js u.0),
    select_where_unique p js u.1,
  )
  | inr t ↦ rw t (select_where_unique p js u.1)
]

-- In a table with distinct ids, each row is what its id finds.
pub rows_found :
    (xs : List Simulation)
    → UniqueKeys (λ k. k.id) xs
    → All (λ j. find_first (λ k. k.id == j.id) xs ≡ some j) xs
rows_found [] u = tt
rows_found (x ∷ xs) u = (rw (==_refl x.id) refl, All-imp2 xs u.0 (rows_found xs u.1))
  where
    All-imp2 :
        (ys : List Simulation)
        → All (λ y. y.id ≢ x.id) ys
        → All (λ j. find_first (λ k. k.id == j.id) xs ≡ some j) ys
        → All (λ j. find_first (λ k. k.id == j.id) (x ∷ xs) ≡ some j) ys
    All-imp2 [] d h = tt
    All-imp2 (y ∷ ys) d h = (ground (arith, d.0, h.0), All-imp2 ys d.1 h.1)

trivial : (xs : List Simulation) → All (λ j. Unit {0}) xs
trivial [] = tt
trivial (x ∷ xs) = (tt, trivial xs)

module _ (locked : Uuid → Bool) (now : Instant) (lease : ℕ) (s : State) where
  abbrev pub eligible : Simulation → Bool
  eligible j = is_candidate now lease j && not (locked j.id)

  -- The jobs that a worker looks at are in the order of their age, at most ten, and are candidates
  -- that no other transaction has locked; an unlocked candidate that is left out comes after all
  -- ten.
  pub select_candidates_lem :
      let picked = select_candidates locked now lease s in
      Ordered picked
      × (length picked ≤ 10)
      × All (λ j. eligible j ≡ true) picked
      × ((i : Simulation)
          → eligible i ≡ true
          → Occurs i s.simulations
          → Occurs i picked ⊎ (length picked ≡ 10) × All (λ k. before k i ≡ true) picked)
  unfolding select_candidates
  select_candidates_lem =
      let rows = select_where eligible s.simulations in
      (
        take-Ordered_keeps 10 (order_by_age rows) (order_by_age-Ordered rows),
        length-take-le 10 (order_by_age rows),
        All-take _ 10 (order_by_age rows) (
            order_by_age-All _ rows (
              All-imp _ _ rows (λ j h. h.1)
                (select_where-All (λ j. Unit) eligible s.simulations (trivial s.simulations)))),
        λ i e o.
            take-Ordered 10 i (order_by_age rows) (order_by_age-Ordered rows)
              (order_by_age-Occurs i rows (select_where-Occurs eligible i s.simulations e o)),
      )

  -- What the loop over them starts from: snapshots of distinct rows.
  pub select_candidates-rows :
      UniqueJobs s
      → UniqueKeys (λ k. k.id) (select_candidates locked now lease s)
        × All
            (λ j. (get_job j.id s ≡ some j) × (eligible j ≡ true))
            (select_candidates locked now lease s)
  unfolding select_candidates
  select_candidates-rows u =
      let rows = select_where eligible s.simulations in
      (
        take_unique 10 (order_by_age rows)
            (order_by_age_unique rows (select_where_unique eligible s.simulations u)),
        All-take _ 10 (order_by_age rows) (
            order_by_age-All _ rows
              (select_where-All _ eligible s.simulations (rows_found s.simulations u))),
      )
