-- ===== src/Worker/Progress.antt =====
-- When `claim_next_job` of app/services/worker.py returns a job.
use behaviour_sim_api.Base.{
  ℕ, ◌+◌, ◌≤◌, ◌≡◌, ◌⊎◌, ◌∙◌, ap, refl, inl, inr, arith, Bool, true, false, List, [], ◌∷◌, Option,
  none, some, String, All-imp, count_where, ltb,
}
use behaviour_sim_api.Store.Rows.{Uuid, Instant, pending, Simulation}
use behaviour_sim_api.Store.State.{State}
use behaviour_sim_api.Store.Env.{Env}
use behaviour_sim_api.Store.Action.{ok, Result}
use behaviour_sim_api.Jobs.{get_job}
use behaviour_sim_api.Jobs.Lifecycle.{UniqueJobs}
use behaviour_sim_api.Worker.{
  seconds, runs_for, get_user_concurrency_capacity, claim_job, try_candidate, claim_loop,
  claim_next_job, select_candidates,
}
use behaviour_sim_api.Worker.Order.{Occurs, first, later, select_candidates-rows}
use behaviour_sim_api.Worker.Claim.{try_candidate_lem, try_candidate-Follows}
use behaviour_sim_api.Worker.Loop.{claim_loop-on, claim_loop-stop, Rows, rest-Rows}
use behaviour_sim_api.Worker.Limits.{count-save, count_where-all}

-- A free slot stays free while the user's running jobs do not become more.
capacity-le :
    (id : Uuid) (s t : State)
    → t.users ≡ s.users
    → t.plans ≡ s.plans
    → count_where (runs_for id) t.simulations ≤ count_where (runs_for id) s.simulations
    → get_user_concurrency_capacity id none s ≡ true
    → get_user_concurrency_capacity id none t ≡ true
unfolding get_user_concurrency_capacity
capacity-le id s t us ps le h =
    rw (us, ps)
      (ground (
        arith,
        count_where-all (runs_for id) s.simulations,
        count_where-all (runs_for id) t.simulations,
        le,
        h,
      ))

module _ (env : Env) (worker_id : String) (max_pending : ℕ) (now : Instant) where
  -- A pending job that is not too old and whose user has a free slot.
  record Ready (j : Simulation) (s : State) : Type 0 where
    waits : j.status ≡ pending
    young : ltb (j.created_at + seconds max_pending) now ≡ false
    slot : get_user_concurrency_capacity j.user_id none s ≡ true

  abbrev IsClaim : Result (Option Simulation) × State → Type 0
  IsClaim q = (k : Simulation) × (q.0 ≡ ok (some k))

  try-Ready :
      (j : Simulation) (s : State)
      → Ready j s
      → IsClaim (try_candidate env worker_id max_pending now j s)
  unfolding try_candidate claim_job
  try-Ready j s r = rw (r.waits, r.young, r.slot) (_, refl)

  -- Where the loop goes on, a job that is ready stays so.
  still-Ready :
      (job j : Simulation) (s : State)
      → UniqueJobs s
      → get_job job.id s ≡ some job
      → Ready j s
      → let m = try_candidate env worker_id max_pending now job s in
        IsClaim m ⊎ (m.0 ≡ ok none) × Ready j m.1
  still-Ready job j s u row r =
      let m = try_candidate env worker_id max_pending now job s in
      let (how, users, plans) = try_candidate_lem env worker_id max_pending now job s in
      elim how [
        | inl (e, same, _, _) ↦ inr (
          e,
          record {
            waits = r.waits;
            young = r.young;
            slot = capacity-le j.user_id s m.1 users plans (rw same (omega arith)) r.slot;
          },
        )
        | inr (inl (k, given, _, e, saved, _)) ↦ inr (
          e,
          record {
            waits = r.waits;
            young = r.young;
            slot =
                capacity-le j.user_id s m.1 users plans
                  (rw saved
                    (ground (arith, count-save j.user_id job k s u row given.same_id, given.ended)))
                  r.slot;
          },
        )
        | inr (inr (k, _, e, _, _, _)) ↦ inl (k, e)
      ]

  claim_loop-Ready :
      (jobs : List Simulation) (j : Simulation) (s : State)
      → UniqueJobs s
      → Rows env worker_id max_pending now jobs s
      → Occurs j jobs
      → Ready j s
      → IsClaim (claim_loop env worker_id max_pending now jobs s)
  claim_loop-Ready [] j s u rows o r = elim o [ ]
  claim_loop-Ready (_ ∷ jobs) j s u rows first r =
      let (k, e) = try-Ready j s r in
      (k, ap (λ q. q.0) (claim_loop-stop env worker_id max_pending now j jobs s k e))
  claim_loop-Ready (job ∷ jobs) j s u rows (later o) r = elim (still-Ready job j s u rows.1.0 r) [
    | inl (k, e) ↦ (k, ap (λ q. q.0) (claim_loop-stop env worker_id max_pending now job jobs s k e))
    | inr (e, r') ↦
        let (k, e') =
          claim_loop-Ready jobs j (try_candidate env worker_id max_pending now job s).1
            ((try_candidate-Follows env worker_id max_pending now job s rows.1.0).unique u)
            (rest-Rows env worker_id max_pending now job jobs s rows) o r' in
        (k, ap (λ q. q.0) (claim_loop-on env worker_id max_pending now job jobs s e) ∙ e')
  ]

-- Where the jobs' ids are distinct: if one of the jobs that the claim looks at is pending, has not
-- waited too long, and has a user with a free slot, then the claim returns a job.
pub claim_next_job_progress :
    (env : Env) (locked : Uuid → Bool) (worker_id : String) (lease max_pending : ℕ) (s : State)
    (j : Simulation)
    → UniqueJobs s
    → Occurs j (select_candidates locked s.clock lease s)
    → j.status ≡ pending
    → ltb (j.created_at + seconds max_pending) s.clock ≡ false
    → get_user_concurrency_capacity j.user_id none s ≡ true
    → (k : Simulation) × ((claim_next_job env locked worker_id lease max_pending s).0 ≡ ok (some k))
unfolding claim_next_job
claim_next_job_progress env locked worker_id lease max_pending s j u o st young slot =
    let picked = select_candidates locked s.clock lease s in
    let (ids, rows) = select_candidates-rows locked s.clock lease s u in
    claim_loop-Ready env worker_id max_pending s.clock picked j s u
      (ids, All-imp _ _ picked (λ i r. r.0) rows) o
      (record { waits = st; young = young; slot = slot })
