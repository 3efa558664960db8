-- ===== src/Worker/Discard.antt =====
-- How `process_claimed_job` of app/services/worker.py ends.
use behaviour_sim_api.Base.{
  ℕ, ◌≡◌, ◌⊎◌, ◌∙◌, ap, sym, refl, inl, inr, arith, Bool, true, false, List, none, some, String,
  ◌==◌, Bool-cases, Option-cases, find_first,
}
use behaviour_sim_api.Store.Rows.{Uuid, Records, completed, failed, Simulation}
use behaviour_sim_api.Store.State.{State}
use behaviour_sim_api.Store.Env.{Env, complete_job, fail_job}
use behaviour_sim_api.Store.Action.{Result, ok, bind_ok, Result-cases, modify, ◌>>◌}
use behaviour_sim_api.Usage.{refund_usage, record_usage_result, add_event}
use behaviour_sim_api.Presets.Execute.{execute_simulation}
use behaviour_sim_api.Jobs.{save, get_job, engine_code, engine_message, plain}
use behaviour_sim_api.Jobs.Lifecycle.{get_job-save_same, get_job-id}
use behaviour_sim_api.Worker.{fail_and_refund, failed_as}
use behaviour_sim_api.Worker.Process.{
  held_by, Ended, produced, broke, run_engine, store_failure, store_fallback, store_success,
  store_outcome, process_claimed_job, completed_with,
}

run_engine_lem :
    (env : Env) (job : Simulation) (s : State) → (e : Ended) × ((run_engine env job s).0 ≡ ok e)
unfolding run_engine
run_engine_lem env job s =
    let m =
      execute_simulation env job.preset job.num_interactions job.seed job.profile
        job.initial_state in
    elim (Result-cases (m s).0) [
      | inl ((i, records, ms), e) ↦ (produced records ms, ground (arith, e))
      | inr (x, e) ↦ (broke (engine_code x) (engine_message x), ground (arith, e))
    ]

-- The row of the job is one that the worker holds no more.
abbrev pub Lost : String → Uuid → State → Type 0
Lost worker_id id t =
    (get_job id t ≡ none)
    ⊎ (j : Simulation) × (get_job id t ≡ some j) × (held_by worker_id j ≡ false)

-- The row of the job runs for the worker.
abbrev pub Held : String → Uuid → State → Type 0
Held worker_id id t = (j : Simulation) × (get_job id t ≡ some j) × (held_by worker_id j ≡ true)

-- The job has ended, and the worker is told whether it is completed.
abbrev pub Stored : Uuid → Result Bool × State → Type 0
Stored id (r, s') =
    (k : Simulation) × (get_job id s' ≡ some k)
    × ((k.status ≡ completed) × (r ≡ ok true) ⊎ (k.status ≡ failed) × (r ≡ ok false))

module _ (env : Env) (job : Simulation) (worker_id : String)
    (persisted : (env.persists complete_job ≡ true) ⊎ (env.persists fail_job ≡ true))
    (t : State) where
  put_row :
      (j k : Simulation) (rows : List Simulation)
      → get_job job.id t ≡ some j
      → k.id ≡ j.id
      → rows ≡ (save k t).simulations
      → find_first (λ i. i.id == job.id) rows ≡ some k
  put_row j k rows e same saved =
      let ids : k.id ≡ job.id = same ∙ get_job-id job.id t j e in
      ap (find_first (λ i. i.id == job.id)) saved
      ∙ ap (λ i. get_job i (save k t)) (sym ids)
      ∙ get_job-save_same j k t (ap (λ i. get_job i t) ids ∙ e)

  -- The row of a fallback.
  abbrev unpersisted : Simulation → Simulation
  unpersisted j =
      failed_as j t.clock "simulation_persistence_failed"
        (plain "Failed to persist simulation run.")

  fallback_lem :
      (j : Simulation)
      → get_job job.id t ≡ some j
      → env.persists fail_job ≡ true
      → let (r, s') = store_fallback env job t in
        (r ≡ ok false) × (s'.simulations ≡ (save (unpersisted j) t).simulations)
  unfolding store_fallback fail_and_refund refund_usage record_usage_result add_event
  fallback_lem j e failing = rw (e, store_fallback) (rw failing (refl, refl))

  store_success-Stored :
      (j : Simulation) (records : Records) (ms : ℕ)
      → get_job job.id t ≡ some j
      → Stored job.id (store_success env job j records ms t)
  unfolding store_success store_fallback fail_and_refund refund_usage record_usage_result add_event
  store_success-Stored j records ms e = elim (Bool-cases (env.persists complete_job)) [
    | inl c ↦
        rw c (completed_with j t.clock records ms, put_row j _ _ e refl refl, inl (refl, refl))
    | inr c ↦
        let failing : env.persists fail_job ≡ true = ground arith in
        let (r, saved) = fallback_lem j e failing in
        rw c (unpersisted j, put_row j (unpersisted j) _ e refl saved, inr (refl, r))
  ]

  outcome_none :
      (ended : Ended)
      → get_job job.id t ≡ none
      → store_outcome env job worker_id ended t ≡ (ok false, t)
  unfolding store_outcome
  outcome_none ended e = rw (e, store_outcome) refl

  outcome_lost :
      (ended : Ended) (j : Simulation)
      → get_job job.id t ≡ some j
      → held_by worker_id j ≡ false
      → store_outcome env job worker_id ended t ≡ (ok false, t)
  unfolding store_outcome
  outcome_lost ended j e lost = rw (e, store_outcome) (rw lost refl)

  outcome_held :
      (ended : Ended) (j : Simulation)
      → get_job job.id t ≡ some j
      → held_by worker_id j ≡ true
      → store_outcome env job worker_id ended t ≡ elim ended [
        | produced records ms ↦ store_success env job j records ms t
        | broke code message ↦ store_failure env job j code message t
      ]
  unfolding store_outcome
  outcome_held ended j e held = rw (e, store_outcome) (rw held refl)

  ended_row :
      (ended : Ended) (j : Simulation)
      → get_job job.id t ≡ some j
      → Stored job.id (elim ended [
        | produced records ms ↦ store_success env job j records ms t
        | broke code message ↦ store_failure env job j code message t
      ])
  unfolding store_failure fail_and_refund refund_usage record_usage_result add_event
  ended_row (produced records ms) j e = store_success-Stored j records ms e
  ended_row (broke code message) j e =
      (failed_as j t.clock code message, put_row j _ _ e refl refl, inr (refl, refl))

  store_outcome_lem :
      (ended : Ended)
      → (Lost worker_id job.id t × (store_outcome env job worker_id ended t ≡ (ok false, t)))
        ⊎ Held worker_id job.id t × Stored job.id (store_outcome env job worker_id ended t)
  store_outcome_lem ended = elim (Option-cases (get_job job.id t)) [
    | inl e ↦ inl (inl e, outcome_none ended e)
    | inr (j, e) ↦ elim (Bool-cases (held_by worker_id j)) [
      | inr lost ↦ inl (inr (j, e, lost), outcome_lost ended j e lost)
      | inl held ↦ inr ((j, e, held), rw (outcome_held ended j e held) (ended_row ended j e))
    ]
  ]

-- A worker that has run a claimed job stores its end only if the job's row still runs for it: then
-- the row is completed, and the answer is true, or it is failed, and the answer is false. If other
-- processes have meanwhile taken the job away, the result is dropped and nothing is written. This
-- holds where the database accepts the completed or the failed state of the job.
pub process_claimed_job_lem :
    (env : Env) (meanwhile : State → State) (job : Simulation) (worker_id : String) (s : State)
    → (env.persists complete_job ≡ true) ⊎ (env.persists fail_job ≡ true)
    → let t = meanwhile (run_engine env job s).1 in
      (Lost worker_id job.id t
        × (process_claimed_job env meanwhile job worker_id s ≡ (ok false, t)))
      ⊎ Held worker_id job.id t × Stored job.id (process_claimed_job env meanwhile job worker_id s)
unfolding process_claimed_job
process_claimed_job_lem env meanwhile job worker_id s persisted =
    let (ended, e) = run_engine_lem env job s in
    let m = run_engine env job in
    rw
      (bind_ok m (λ v. modify meanwhile >> store_outcome env job worker_id v) s
        (λ i. (e i, (m s).1)))
      (store_outcome_lem env job worker_id persisted (meanwhile (m s).1) ended)
