-- ===== src/Retention/Loop.antt =====
-- The whole cleanup of app/services/retention.py.
use behaviour_sim_api.Base.{
  ℕ, zero, suc, ◌+◌, ◌≤◌, ◌<◌, ◌≡◌, ◌∙◌, sym, refl, inl, inr, arith, Bool, true, false, ◌&&◌, not,
  List, Option, none, some, String, ◌==◌, ◌||◌, ltb, [], ◌∷◌, some_or, Bool-cases, count_where,
  delete_where, length,
}
use behaviour_sim_api.Store.Rows.{Uuid, Instant, Simulation}
use behaviour_sim_api.Store.State.{State}
use behaviour_sim_api.Store.Action.{ok}
use behaviour_sim_api.Jobs.Lifecycle.{UniqueJobs}
use behaviour_sim_api.Retention.{
  CleanupRequest, CleanupResult, cleanup_expired_simulations, delete_expired,
  count_eligible_simulations, get_retention_cutoff, is_expired, may_delete, select_expired, is_in,
  delete_all, perform_batch_delete, Tally, add_batch, batch_loop,
}
use behaviour_sim_api.Retention.Batch.{
  count_where-none, delete_where-imp, count-delete_where, delete_where_unique, is_in-free,
  is_in-pos, none_left,
}

module _ (locked : Uuid → Bool) (cutoff : Instant) (batch_size : ℕ) (b : 1 ≤ batch_size) where
  abbrev no_failure : ℕ → Option String
  no_failure n = none

  -- How the loop ends: no job that it may delete is left, all others are, and the count is right.
  abbrev Cleaned : Tally → State → Option (Tally × State) → Type 0
  Cleaned t s q =
      (t' : Tally) × (s' : State) × (q ≡ some (t', s'))
      × (s'.simulations ≡ delete_where (may_delete locked cutoff) s.simulations)
      × (t'.deleted_total ≡ t.deleted_total + count_where (may_delete locked cutoff) s.simulations)
      × (t'.exc ≡ t.exc)
      × (s'.monthly_usage ≡ s.monthly_usage)

  loop_stop :
      (fuel : ℕ) (t : Tally) (s : State)
      → (length (select_expired locked cutoff batch_size s) == 0) ≡ true
      → batch_loop locked no_failure cutoff batch_size (suc fuel) t s ≡ some (t, s)
  unfolding batch_loop perform_batch_delete
  loop_stop fuel t s e = rw e refl

  loop_on :
      (fuel : ℕ) (t : Tally) (s : State)
      → let ids = select_expired locked cutoff batch_size s in
        (length ids == 0) ≡ false
        → batch_loop locked no_failure cutoff batch_size (suc fuel) t s
          ≡ batch_loop locked no_failure cutoff batch_size fuel
              (add_batch (count_where (is_in ids) s.simulations) t)
              (delete_all ids s)
  unfolding batch_loop perform_batch_delete
  loop_on fuel t s e = rw (e, e) refl

  pub batch_loop_lem :
      (fuel : ℕ) (t : Tally) (s : State)
      → UniqueJobs s
      → count_where (may_delete locked cutoff) s.simulations < fuel
      → Cleaned t s (batch_loop locked no_failure cutoff batch_size fuel t s)
  batch_loop_lem zero t s u h = ground arith
  batch_loop_lem (suc fuel) t s u h =
      let ids = select_expired locked cutoff batch_size s in
      elim (Bool-cases (length ids == 0)) [
        | inl e ↦
            let same = none_left locked cutoff batch_size s u b e in
            (
              t,
              s,
              loop_stop fuel t s e,
              sym same,
              omega (arith, count_where-none (may_delete locked cutoff) s.simulations same),
              refl,
              refl,
            )
        | inr e ↦
            let only = is_in-free locked cutoff batch_size s u in
            let fewer =
              count-delete_where (may_delete locked cutoff) (is_in ids) s.simulations only in
            let some_gone = is_in-pos locked cutoff batch_size s u e in
            let (t', s', r, rows, total, exc, usage) =
              batch_loop_lem fuel (add_batch (count_where (is_in ids) s.simulations) t)
                (delete_all ids s) (delete_where_unique (is_in ids) s.simulations u)
                (omega (arith, fewer, some_gone)) in
            (
              t',
              s',
              loop_on fuel t s e ∙ r,
              rows ∙ delete_where-imp (may_delete locked cutoff) (is_in ids) s.simulations only,
              total ∙ omega (arith, fewer),
              exc,
              usage,
            )
      ]

no_expired :
    (p l : Simulation → Bool) (xs : List Simulation)
    → count_where p xs ≡ 0
    → (delete_where (λ j. p j && not (l j)) xs ≡ xs) × (count_where (λ j. p j && not (l j)) xs ≡ 0)
no_expired p l [] h = (refl, refl)
no_expired p l (x ∷ xs) h = (ground (arith, no_expired p l xs), ground (arith, no_expired p l xs))

count-imp :
    (p l : Simulation → Bool) (xs : List Simulation)
    → count_where (λ j. p j && not (l j)) xs ≤ length xs
count-imp p l [] = omega arith
count-imp p l (x ∷ xs) = ground (arith, count-imp p l xs)

module _ (locked : Uuid → Bool) (elapsed : ℕ) (r : CleanupRequest) (fuel : ℕ) (s : State)
    (days : 1 ≤ r.retention_days) (some_rows : 1 ≤ r.batch_size) (few_rows : r.batch_size ≤ 1000)
    (live : r.dry_run ≡ false) (unique : UniqueJobs s) (enough : length s.simulations < fuel) where
  abbrev cutoff_of : Instant
  cutoff_of = some_or r.cutoff_override (get_retention_cutoff r.retention_days s)

  abbrev gone : Simulation → Bool
  gone = may_delete locked cutoff_of

  abbrev Deleted : Option (CleanupResult × State) → Type 0
  Deleted q =
      (result : CleanupResult) × (s' : State) × (q ≡ some (result, s'))
      × (s'.simulations ≡ delete_where gone s.simulations)
      × (result.deleted_count ≡ count_where gone s.simulations)
      × (result.success ≡ true)
      × (s'.monthly_usage ≡ s.monthly_usage)

  delete_expired-Deleted :
      Deleted (delete_expired locked (λ n. none) elapsed cutoff_of r.batch_size fuel s)
  unfolding delete_expired count_eligible_simulations
  delete_expired-Deleted =
      elim (Bool-cases (count_where (is_expired cutoff_of) s.simulations == 0)) [
        | inl e ↦
            let (same, zero_of) =
              no_expired (is_expired cutoff_of) (λ j. locked j.id) s.simulations (ground arith) in
            rw e (_, _, refl, sym same, sym zero_of, refl, refl)
        | inr e ↦
            let (t, s', q, rows, total, exc, usage) =
              batch_loop_lem locked cutoff_of r.batch_size some_rows fuel
                (record { deleted_total = 0; batch_count = 0; exc = none }) s unique
                (omega (
                  arith,
                  enough,
                  count-imp (is_expired cutoff_of) (λ j. locked j.id) s.simulations,
                )) in
            rw (e, q) (_, _, refl, rows, total ∙ omega arith, rw exc refl, usage)
      ]

  -- Where the jobs' ids are distinct, a cleanup with valid settings that is no dry run, whose statements raise nothing, ends with fuel
  -- above the number of jobs. It deletes exactly the expired jobs that no other transaction has
  -- locked, reports their number and success, and changes no usage.
  pub cleanup_expired_simulations_lem :
      (result : CleanupResult) × (s' : State) × (cleanup_expired_simulations locked
          (λ n. none)
          elapsed
          r
          fuel
          s
        ≡ some (ok result, s'))
      × (s'.simulations ≡ delete_where gone s.simulations)
      × (result.deleted_count ≡ count_where gone s.simulations)
      × (result.success ≡ true)
      × (s'.monthly_usage ≡ s.monthly_usage)
  unfolding cleanup_expired_simulations
  cleanup_expired_simulations_lem =
      let (result, s', q, rows, count, success, usage) = delete_expired-Deleted in
      let valid : (ltb r.retention_days 1 || ltb r.batch_size 1 || ltb 1000 r.batch_size) ≡ false =
        ground arith in
      (result, s', rw (valid, live, q) refl, rows, count, success, usage)
