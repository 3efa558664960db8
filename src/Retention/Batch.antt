-- ===== src/Retention/Batch.antt =====
-- One batch of app/services/retention.py.
use behaviour_sim_api.Base.{
  ℕ, zero, suc, ◌+◌, ◌≤◌, ◌≡◌, ◌∙◌, ap, sym, refl, inl, inr, arith, Bool, true, false, List, [],
  ◌∷◌, some, ◌==◌, All-take, count_where-pos, All, All-imp, UniqueKeys, Bool-cases, select_where,
  count_where, delete_where, take, length,
}
use behaviour_sim_api.Store.Rows.{Uuid, Instant, Simulation}
use behaviour_sim_api.Store.State.{State}
use behaviour_sim_api.Jobs.{get_job}
use behaviour_sim_api.Jobs.Lifecycle.{UniqueJobs}
use behaviour_sim_api.Worker.{order_by_age, insert_by_age}
use behaviour_sim_api.Worker.Order.{order_by_age-All, rows_found, select_where-All}
use behaviour_sim_api.Retention.{may_delete, select_expired, is_in}

module _ {ℓ} {A : Type ℓ} where
  pub delete_where-imp :
      (p q : A → Bool) (xs : List A)
      → All (λ x. q x ≡ true → p x ≡ true) xs
      → delete_where p (delete_where q xs) ≡ delete_where p xs
  delete_where-imp p q [] h = refl
  delete_where-imp p q (x ∷ xs) h = ground (arith, h.0, delete_where-imp p q xs h.1)

  pub count-delete_where :
      (p q : A → Bool) (xs : List A)
      → All (λ x. q x ≡ true → p x ≡ true) xs
      → count_where p (delete_where q xs) + count_where q xs ≡ count_where p xs
  count-delete_where p q [] h = refl
  count-delete_where p q (x ∷ xs) h = ground (arith, h.0, count-delete_where p q xs h.1)

  delete_where-none :
      (p : A → Bool) (xs : List A) → length (select_where p xs) ≡ 0 → delete_where p xs ≡ xs
  delete_where-none p [] h = refl
  delete_where-none p (x ∷ xs) h = ground (arith, delete_where-none p xs)

  length-delete_where :
      (p : A → Bool) (xs : List A) → length (delete_where p xs) + count_where p xs ≡ length xs
  length-delete_where p [] = refl
  length-delete_where p (x ∷ xs) = ground (arith, length-delete_where p xs)

  pub count_where-none :
      (p : A → Bool) (xs : List A) → delete_where p xs ≡ xs → count_where p xs ≡ 0
  count_where-none p xs e = omega (arith, length-delete_where p xs, ap length e)

  pub count-select_where :
      (p : A → Bool) (xs : List A) → length (select_where p xs) ≡ count_where p xs
  count-select_where p [] = refl
  count-select_where p (x ∷ xs) = ground (arith, count-select_where p xs)

  length-take_pos : (n : ℕ) (xs : List A) → 1 ≤ n → length (take n xs) ≡ 0 → length xs ≡ 0
  length-take_pos zero xs h e = ground arith
  length-take_pos (suc n) [] h e = refl
  length-take_pos (suc n) (x ∷ xs) h e = ground arith

delete_where-All :
    (P : Simulation → Type 0) (q : Simulation → Bool) (xs : List Simulation)
    → All P xs
    → All P (delete_where q xs)
delete_where-All P q [] h = tt
delete_where-All P q (x ∷ xs) h = elim (Bool-cases (q x)) [
  | inl t ↦ rw t (delete_where-All P q xs h.1)
  | inr t ↦ rw t (h.0, delete_where-All P q xs h.1)
]

pub delete_where_unique :
    (q : Simulation → Bool) (xs : List Simulation)
    → UniqueKeys (λ j. j.id) xs
    → UniqueKeys (λ j. j.id) (delete_where q xs)
delete_where_unique q [] u = tt
delete_where_unique q (x ∷ xs) u = elim (Bool-cases (q x)) [
  | inl t ↦ rw t (delete_where_unique q xs u.1)
  | inr t ↦ rw t (delete_where-All _ q xs u.0, delete_where_unique q xs u.1)
]

length-insert_by_age :
    (j : Simulation) (js : List Simulation) → length (insert_by_age j js) ≡ suc (length js)
unfolding insert_by_age
length-insert_by_age j [] = refl
length-insert_by_age j (k ∷ ks) = ground (arith, length-insert_by_age j ks)

length-order_by_age : (js : List Simulation) → length (order_by_age js) ≡ length js
unfolding order_by_age
length-order_by_age [] = refl
length-order_by_age (j ∷ js) =
    length-insert_by_age j (order_by_age js) ∙ ap suc (length-order_by_age js)

-- A row whose id is in a list of rows is in it.
is_in-row :
    (P : Simulation → Type 0) (ks : List Simulation) (x : Simulation) (s : State)
    → All (λ k. (get_job k.id s ≡ some k) × P k) ks
    → get_job x.id s ≡ some x
    → is_in ks x ≡ true
    → P x
is_in-row P [] x s h e i = ground arith
is_in-row P (k ∷ ks) x s h e i = elim (Bool-cases (k.id == x.id)) [
  | inl t ↦
      let ids : k.id ≡ x.id = ground arith in
      let same : k ≡ x = ground (arith, h.0.0, e, ap (λ n. get_job n s) ids) in rw same at (h.0.1)
  | inr t ↦ is_in-row P ks x s h.1 e (ground arith)
]

module _ (locked : Uuid → Bool) (cutoff : Instant) (batch_size : ℕ) (s : State)
    (u : UniqueJobs s) where
  -- What a batch may delete.
  abbrev free : Simulation → Bool
  free = may_delete locked cutoff

  abbrev ids : List Simulation
  ids = select_expired locked cutoff batch_size s

  ids-rows : All (λ k. (get_job k.id s ≡ some k) × (free k ≡ true)) ids
  unfolding select_expired
  ids-rows = All-take _ batch_size (order_by_age (select_where free s.simulations)) (
      order_by_age-All _ (select_where free s.simulations)
        (select_where-All _ free s.simulations (rows_found s.simulations u)))

  -- A batch deletes only jobs that may be deleted.
  pub is_in-free : All (λ x. is_in ids x ≡ true → free x ≡ true) s.simulations
  is_in-free =
      All-imp _ _ s.simulations (λ x e. is_in-row (λ k. free k ≡ true) ids x s ids-rows e)
        (rows_found s.simulations u)

  -- A batch that finds a job deletes one at least.
  pub is_in-pos : (length ids == 0) ≡ false → 1 ≤ count_where (is_in ids) s.simulations
  is_in-pos h = some_row ids ids-rows h
    where
      some_row :
          (ks : List Simulation)
          → All (λ k. (get_job k.id s ≡ some k) × (free k ≡ true)) ks
          → (length ks == 0) ≡ false
          → 1 ≤ count_where (is_in ks) s.simulations
      some_row [] r e = ground arith
      some_row (k ∷ ks) r e =
          count_where-pos (λ j. j.id == k.id) (is_in (k ∷ ks)) s.simulations k r.0.0 (ground arith)

  -- A batch that finds none has none to find.
  pub none_left :
      1 ≤ batch_size → (length ids == 0) ≡ true → delete_where free s.simulations ≡ s.simulations
  unfolding select_expired
  none_left b e =
      let rows = select_where free s.simulations in
      delete_where-none free s.simulations (
        sym (length-order_by_age rows)
        ∙ length-take_pos batch_size (order_by_age rows) b (ground arith))
