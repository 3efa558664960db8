-- ===== src/Worker/Loop.antt =====
-- The loop of `claim_next_job` of app/services/worker.py over the candidates.
use behaviour_sim_api.Base.{
  ℕ, ◌≡◌, ◌≢◌, ◌⊎◌, ◌∙◌, ap, refl, inl, inr, List, [], ◌∷◌, Option, none, some, String, ◌==◌, All,
  UniqueKeys, find_first,
}
use behaviour_sim_api.Store.Rows.{Instant, Simulation}
use behaviour_sim_api.Store.State.{State}
use behaviour_sim_api.Store.Env.{Env}
use behaviour_sim_api.Store.Action.{Result, ok}
use behaviour_sim_api.Jobs.{get_job}
use behaviour_sim_api.Jobs.Lifecycle.{get_job-save_same, Follows, Follows-same, Follows-trans}
use behaviour_sim_api.Worker.{try_candidate, claim_loop}
use behaviour_sim_api.Worker.Order.{Occurs, first, later}
use behaviour_sim_api.Worker.Claim.{
  Claimed, try_candidate_lem, try_candidate-Follows, try_candidate-others,
}

module _ (env : Env) (worker_id : String) (max_pending : ℕ) (now : Instant) where
  -- The loop ends without a job, or with one of the candidates, claimed and stored.
  abbrev pub Looped : List Simulation → Result (Option Simulation) × State → Type 0
  Looped jobs (r, s') =
      (r ≡ ok none)
      ⊎ (j : Simulation) × (k : Simulation) × Occurs j jobs
        × Claimed worker_id now j k
        × (r ≡ ok (some k))
        × (get_job k.id s' ≡ some k)

  abbrev pub Rows : List Simulation → State → Type 0
  Rows jobs s = UniqueKeys (λ j. j.id) jobs × All (λ j. get_job j.id s ≡ some j) jobs

  pub rest-Rows :
      (job : Simulation) (jobs : List Simulation) (s : State)
      → Rows (job ∷ jobs) s
      → Rows jobs (try_candidate env worker_id max_pending now job s).1
  rest-Rows job jobs s (u, h) = (u.1, keep jobs u.0 h.1)
    where
      keep :
          (ks : List Simulation)
          → All (λ k. k.id ≢ job.id) ks
          → All (λ k. get_job k.id s ≡ some k) ks
          → All
              (λ k. get_job k.id (try_candidate env worker_id max_pending now job s).1 ≡ some k)
              ks
      keep [] d f = tt
      keep (k ∷ ks) d f =
          (try_candidate-others env worker_id max_pending now job s k.id d.0 ∙ f.0, keep ks d.1 f.1)

  pub claim_loop-on :
      (job : Simulation) (jobs : List Simulation) (s : State)
      → let m = try_candidate env worker_id max_pending now job s in
        m.0 ≡ ok none
        → claim_loop env worker_id max_pending now (job ∷ jobs) s
          ≡ claim_loop env worker_id max_pending now jobs m.1
  unfolding claim_loop
  claim_loop-on job jobs s e = rw (e, claim_loop) refl

  pub claim_loop-stop :
      (job : Simulation) (jobs : List Simulation) (s : State) (k : Simulation)
      → let m = try_candidate env worker_id max_pending now job s in
        m.0 ≡ ok (some k)
        → claim_loop env worker_id max_pending now (job ∷ jobs) s ≡ (ok (some k), m.1)
  unfolding claim_loop
  claim_loop-stop job jobs s k e = rw (e, claim_loop) refl

  pub claim_loop_lem :
      (jobs : List Simulation) (s : State)
      → Rows jobs s
      → Looped jobs (claim_loop env worker_id max_pending now jobs s)
        × Follows s (claim_loop env worker_id max_pending now jobs s).1
  unfolding claim_loop
  claim_loop_lem [] s h = (inl refl, Follows-same s s refl)
  claim_loop_lem (job ∷ jobs) s h =
      let m = try_candidate env worker_id max_pending now job s in
      let step = try_candidate-Follows env worker_id max_pending now job s h.1.0 in
      let (looped, follows) = claim_loop_lem jobs m.1 (rest-Rows job jobs s h) in
      let go_on : m.0 ≡ ok none
          → Looped (job ∷ jobs) (claim_loop env worker_id max_pending now (job ∷ jobs) s)
            × Follows s (claim_loop env worker_id max_pending now (job ∷ jobs) s).1 =
        λ e. rw (claim_loop-on job jobs s e) (
          elim looped [ inl r ↦ inl r | inr (j, k, o, c, r, g) ↦ inr (j, k, later o, c, r, g) ],
          Follows-trans step follows,
        ) in
      elim (try_candidate_lem env worker_id max_pending now job s).0 [
        | inl (e, _, _, _) ↦ go_on e
        | inr (inl (_, _, _, e, _, _)) ↦ go_on e
        | inr (inr (k, taken, e, saved, _, _)) ↦ rw (claim_loop-stop job jobs s k e) (
          inr (
            job,
            k,
            first,
            taken,
            refl,
            ap (find_first (λ j. j.id == k.id)) saved
                ∙ get_job-save_same job k s (ap (λ i. get_job i s) taken.same_id ∙ h.1.0),
          ),
          step,
        )
      ]
