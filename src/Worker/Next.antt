-- ===== src/Worker/Next.antt =====
-- What `claim_next_job` of app/services/worker.py returns and leaves.
use behaviour_sim_api.Base.{ℕ, ◌≡◌, ◌⊎◌, inl, inr, Bool, true, none, some, String, All-imp}
use behaviour_sim_api.Store.Rows.{Uuid, Simulation}
use behaviour_sim_api.Store.State.{State}
use behaviour_sim_api.Store.Env.{Env}
use behaviour_sim_api.Store.Action.{ok}
use behaviour_sim_api.Jobs.{get_job}
use behaviour_sim_api.Jobs.Lifecycle.{Follows, UniqueJobs}
use behaviour_sim_api.Worker.{claim_next_job, select_candidates}
use behaviour_sim_api.Worker.Order.{All-Occurs, eligible, select_candidates-rows}
use behaviour_sim_api.Worker.Claim.{Claimed}
use behaviour_sim_api.Worker.Loop.{claim_loop_lem}

module _ (env : Env) (locked : Uuid → Bool) (worker_id : String) (lease max_pending : ℕ) (s : State)
    (unique : UniqueJobs s) where
  -- Where the jobs' ids are distinct, a claim raises nothing. It returns no job, or a job that was a candidate and not locked: then the
  -- job runs for this worker since now, with one more attempt, as its row says. No other job is lost,
  -- and each has moved along the table of transitions, if at all.
  pub claim_next_job_lem :
      let (r, s') = claim_next_job env locked worker_id lease max_pending s in
      Follows s s'
      × ((r ≡ ok none)
          ⊎ (j : Simulation) × (k : Simulation) × (get_job j.id s ≡ some j)
            × (eligible locked s.clock lease s j ≡ true)
            × Claimed worker_id s.clock j k
            × (r ≡ ok (some k))
            × (get_job k.id s' ≡ some k))
  unfolding claim_next_job
  claim_next_job_lem =
      let picked = select_candidates locked s.clock lease s in
      let (u, rows) = select_candidates-rows locked s.clock lease s unique in
      let (looped, follows) =
        claim_loop_lem env worker_id max_pending s.clock picked s
          (u, All-imp _ _ picked (λ j h. h.0) rows) in
      (
        follows,
        elim looped [
          | inl r ↦ inl r
          | inr (j, k, o, c, r, g) ↦
              let (row, candidate) = All-Occurs _ j picked rows o in
              inr (j, k, row, candidate, c, r, g)
        ],
      )
