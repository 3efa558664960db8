-- ===== src/Worker/Cycle.antt =====
-- `SimulationWorker.run_once` of app/worker.py. `stop_requested` is the worker's flag, read once.
use behaviour_sim_api.Base.{
  ℕ, ◌≡◌, ◌⊎◌, ◌∙◌, ap, sym, refl, inl, inr, arith, Bool, true, false, Option, none, some, String,
  find_first, eq_refl, ◌==◌, if◌then◌else◌,
}
use behaviour_sim_api.Store.Rows.{Uuid, running, completed, failed, Simulation}
use behaviour_sim_api.Store.State.{State}
use behaviour_sim_api.Store.Env.{Env, complete_job, fail_job}
use behaviour_sim_api.Store.Action.{Action, ok, Result, pure, catch, bind_ok, catch_ok, ◌>>=◌, ◌>>◌}
use behaviour_sim_api.Store.Keeps.{Keeps, bind-Keeps, catch-Keeps}
use behaviour_sim_api.Presets.Execute.{execute_simulation}
use behaviour_sim_api.Jobs.{get_job, engine_code, engine_message}
use behaviour_sim_api.Jobs.Lifecycle.{Follows, UniqueJobs}
use behaviour_sim_api.Jobs.Steps.{execute_simulation-SameRows}
use behaviour_sim_api.Worker.{claim_next_job}
use behaviour_sim_api.Worker.Order.{eligible}
use behaviour_sim_api.Worker.Claim.{Claimed}
use behaviour_sim_api.Worker.Next.{claim_next_job_lem}
use behaviour_sim_api.Worker.Process.{produced, broke, run_engine, process_claimed_job}
use behaviour_sim_api.Worker.Discard.{Held, Lost, Stored, process_claimed_job_lem}

-- The work on the claimed job, if there is one.
unfoldable pub process_found : Env → (State → State) → String → Option Simulation → Action Bool
unfolding process_claimed_job
process_found env meanwhile worker_id none = pure false
process_found env meanwhile worker_id (some job) = do
  process_claimed_job env meanwhile job worker_id
  pure true

unfoldable pub run_once :
    Env → (Uuid → Bool) → (State → State) → String → ℕ → ℕ → (stop_requested : Bool) → Action Bool
unfolding claim_next_job process_found
run_once env locked meanwhile worker_id lease max_pending stop_requested =
    if stop_requested
    then pure false
    else catch
        (claim_next_job env locked worker_id lease max_pending
          >>= process_found env meanwhile worker_id)
        (λ e. pure false)

run_engine-Keeps : (env : Env) (job : Simulation) → Keeps (λ s. s.simulations) (run_engine env job)
unfolding run_engine
run_engine-Keeps env job =
    let m =
      execute_simulation env job.preset job.num_interactions job.seed job.profile
        job.initial_state in
    catch-Keeps (λ s. s.simulations) (m >>= λ (_, records, ms). pure (produced records ms))
      (λ e. pure (broke (engine_code e) (engine_message e)))
      (bind-Keeps (λ s. s.simulations) m (λ (_, records, ms). pure (produced records ms))
        (λ s.
          (execute_simulation-SameRows env job.preset job.num_interactions job.seed job.profile
            job.initial_state s).simulations)
        (λ a s. refl))
      (λ e s. refl)

-- Other processes leave the jobs that run for the worker to it.
abbrev pub Respects : String → (State → State) → Type 0
Respects worker_id meanwhile =
    (id : Uuid) (s : State) → Held worker_id id s → Held worker_id id (meanwhile s)

module _ (env : Env) (locked : Uuid → Bool) (meanwhile : State → State) (worker_id : String)
    (lease max_pending : ℕ) (s : State) (unique : UniqueJobs s)
    (persisted : (env.persists complete_job ≡ true) ⊎ (env.persists fail_job ≡ true))
    (respects : Respects worker_id meanwhile) where
  -- What becomes of the job `j`.
  abbrev Done : Simulation → State → Type 0
  Done j t =
      (k : Simulation) × (get_job j.id t ≡ some k) × ((k.status ≡ completed) ⊎ (k.status ≡ failed))

  Held-run_engine :
      (k : Simulation) (u : State)
      → get_job k.id u ≡ some k
      → k.status ≡ running
      → k.worker_id ≡ some worker_id
      → Held worker_id k.id (run_engine env k u).1
  Held-run_engine k u row runs worker = (
    k,
    ap (find_first (λ i. i.id == k.id)) (run_engine-Keeps env k u) ∙ row,
    ground (arith, runs, worker, eq_refl worker_id),
  )

  -- A job that is held is not lost.
  Held-Lost : (id : Uuid) (u : State) → Held worker_id id u → Lost worker_id id u → ⊥
  Held-Lost id u (j, row, held) (inl e) = ground (arith, row, e)
  Held-Lost id u (j, row, held) (inr (k, e, lost)) =
      let same : j ≡ k = ground (arith, row, e) in ground (arith, rw same at held, lost)

  Stored-Done :
      (j k : Simulation) (q : Result Bool × State)
      → k.id ≡ j.id
      → Stored k.id q
      → ((b : Bool) × (q.0 ≡ ok b)) × Done j q.1
  Stored-Done j k (r, t) same (l, row, inl (e, answer)) =
      ((true, answer), (l, ap (λ i. get_job i t) (sym same) ∙ row, inl e))
  Stored-Done j k (r, t) same (l, row, inr (e, answer)) =
      ((false, answer), (l, ap (λ i. get_job i t) (sym same) ∙ row, inr e))

  process_claimed_job-Done :
      (j k : Simulation) (u : State)
      → Claimed worker_id s.clock j k
      → get_job k.id u ≡ some k
      → let (r, t) = process_claimed_job env meanwhile k worker_id u in
        ((b : Bool) × (r ≡ ok b)) × Done j t
  process_claimed_job-Done j k u claimed row =
      let t = meanwhile (run_engine env k u).1 in
      let held = Held-run_engine k u row claimed.runs claimed.worker in
      elim (process_claimed_job_lem env meanwhile k worker_id u persisted) [
        | inl (lost, _) ↦ absurd (Held-Lost k.id t (respects k.id _ held) lost)
        | inr (_, ended) ↦
            Stored-Done j k (process_claimed_job env meanwhile k worker_id u) claimed.same_id ended
      ]

  -- What a cycle answers, and the state that it leaves.
  abbrev pub Cycled : Result Bool × State → Type 0
  Cycled q =
      (q.0 ≡ ok false)
        × (claim_next_job env locked worker_id lease max_pending s ≡ (ok none, q.1))
        × Follows s q.1
      ⊎ (j : Simulation) × (get_job j.id s ≡ some j)
        × (eligible locked s.clock lease s j ≡ true)
        × ((k : Simulation) × Claimed worker_id s.clock j k
            × ((claim_next_job env locked worker_id lease max_pending s).0 ≡ ok (some k)))
        × (q.0 ≡ ok true)
        × Done j q.1

  -- Where the jobs' ids are distinct, the database accepts the completed or the failed state, and
  -- other processes leave the jobs that run for this worker to it: a cycle of a worker that is not to
  -- stop raises nothing. It answers false exactly where the claim returns no job: then each job has
  -- moved along the table of transitions, if at all. It answers true exactly where the claim returns
  -- a job, which was a candidate and not locked: at the end of the cycle that job is completed or failed.
  pub run_once_lem : Cycled (run_once env locked meanwhile worker_id lease max_pending false s)
  unfolding run_once process_found
  run_once_lem =
      let m = claim_next_job env locked worker_id lease max_pending in
      let f = process_found env meanwhile worker_id in
      let (follows, claimed) = claim_next_job_lem env locked worker_id lease max_pending s unique in
      elim claimed [
        | inl e ↦
            rw (catch_ok (m >>= f) (λ e. pure false) s (bind_ok m f s (λ i. (e i, (m s).1))))
              (inl (refl, (λ i. (e i, (m s).1)), follows))
        | inr (j, k, row, candidate, taken, e, now) ↦
            let work = process_claimed_job env meanwhile k worker_id in
            let ((b, ended), done) = process_claimed_job-Done j k (m s).1 taken now in
            rw
              (catch_ok (m >>= f) (λ e. pure false) s
                (bind_ok m f s (λ i. (e i, (m s).1))
                  ∙ bind_ok work (λ _. pure true) (m s).1 (λ i. (ended i, (work (m s).1).1))))
              (inr (j, row, candidate, (k, taken, e), refl, done))
      ]
