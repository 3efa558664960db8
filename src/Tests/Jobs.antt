-- ===== src/Tests/Jobs.antt =====
-- The theorems on jobs and workers at concrete data.
use behaviour_sim_api.Base.{
  ◌+◌, ◌≤◌, ◌≡◌, ◌≢◌, ◌⊎◌, arith, Bool, true, false, none, some, [], ◌∷◌, refl, inl, All, length,
}
use behaviour_sim_api.Store.Rows.{Uuid, Instant, running, completed, Simulation}
use behaviour_sim_api.Store.State.{State}
use behaviour_sim_api.Store.Action.{Error, crash, ok, err}
use behaviour_sim_api.Usage.{
  get_current_period_start, reserve_usage, resolve_plan, reserve_for_plan,
  get_or_create_monthly_usage, settle_usage, charge_usage, add_event, record_usage_result,
}
use behaviour_sim_api.Presets.{
  normalize_preset_name, resolve_alias, lower, lower_char, strip, lstrip, rstrip, supported_presets,
}
use behaviour_sim_api.Presets.Execute.{
  execute_simulation, validate_simulation_parameters, check_options, engine_outcome,
}
use behaviour_sim_api.Usage.Counts.{used}
use behaviour_sim_api.Jobs.{
  commit_transition, apply_transition, reserve_quota_for, finish_job, store_result,
  execute_simulation_job, get_job, no_outcome, save, transition_job_status,
  invalid_state_transition,
}
use behaviour_sim_api.Jobs.Lifecycle.{UniqueJobs, Follows, Allowed, transition_job_status_lem}
use behaviour_sim_api.Jobs.Execution.{Finished, execute_simulation_job-Finished}
use behaviour_sim_api.Jobs.Charging.{execute_simulation_job-charges}
use behaviour_sim_api.Worker.Progress.{claim_next_job_progress}
use behaviour_sim_api.Worker.{
  is_candidate, order_by_age, insert_by_age, get_user_concurrency_capacity, before, claim_next_job,
  select_candidates, try_candidate,
}
use behaviour_sim_api.Worker.Process.{process_claimed_job, run_engine}
use behaviour_sim_api.Worker.Order.{first, Occurs, Ordered, eligible, select_candidates_lem}
use behaviour_sim_api.Worker.Claim.{Claimed, Tried, try_candidate_lem}
use behaviour_sim_api.Worker.Next.{claim_next_job_lem}
use behaviour_sim_api.Worker.Limits.{WithinLimits, claim_next_job-WithinLimits}
use behaviour_sim_api.Worker.Cycle.{Cycled, run_once, run_once_lem}
use behaviour_sim_api.Worker.Discard.{Held, Lost, Stored, process_claimed_job_lem}
use behaviour_sim_api.Tests.{toy_env, basic, alice, queued, store}
use behaviour_sim_api.Tests.Usage.{store-UsageRows}

execute_simulation_job-Finished_example :
    Finished toy_env 7 (execute_simulation_job toy_env queued alice none true store)
execute_simulation_job-Finished_example =
    execute_simulation_job-Finished toy_env alice none queued true store refl refl

same_month :
    get_current_period_start toy_env.calendar
      (execute_simulation_job toy_env queued alice none true store).1.clock
    ≡ 0
unfolding execute_simulation_job transition_job_status commit_transition apply_transition
    reserve_quota_for reserve_usage resolve_plan reserve_for_plan get_or_create_monthly_usage
    get_current_period_start settle_usage charge_usage add_event finish_job execute_simulation
    validate_simulation_parameters check_options engine_outcome store_result record_usage_result
    normalize_preset_name resolve_alias lower strip supported_presets lower_char lstrip rstrip
same_month = refl

execute_simulation_job-charges_example :
    let (r, s') = execute_simulation_job toy_env queued alice none true store in
    ((j : Simulation) × (r ≡ ok j) × (used 1 0 s' ≡ (9 + 1, 900 + 100)))
    ⊎ ((e : Error) × (r ≡ err e) × ((v : Uuid) (q : Instant) → used v q s' ≡ used v q store))
    ⊎ (r ≡ err crash) × (true ≡ false) × (used 1 0 s' ≡ (9 + 1, 900 + 100))
unfolding get_current_period_start
execute_simulation_job-charges_example =
    execute_simulation_job-charges toy_env queued alice none store basic refl refl store-UsageRows
      same_month

-- Two jobs of one user, of which the older one is claimed.
abbrev two_jobs : State
two_jobs = record store { simulations = record queued { id = 8; created_at = 450 } ∷ queued ∷ [] }

abbrev free_rows : Uuid → Bool
free_rows id = false

two_jobs-UniqueJobs : UniqueJobs two_jobs
two_jobs-UniqueJobs = (((λ e. omega (arith, e)), tt), (tt, tt))

claim_next_job_lem_example :
    let (r, s') = claim_next_job toy_env free_rows "w" 300 3600 two_jobs in
    Follows two_jobs s'
    × ((r ≡ ok none)
        ⊎ (j : Simulation) × (k : Simulation) × (get_job j.id two_jobs ≡ some j)
          × (eligible free_rows 500 300 two_jobs j ≡ true)
          × Claimed "w" 500 j k
          × (r ≡ ok (some k))
          × (get_job k.id s' ≡ some k))
claim_next_job_lem_example =
    claim_next_job_lem toy_env free_rows "w" 300 3600 two_jobs two_jobs-UniqueJobs

-- Other processes let time pass.
abbrev delayed : State → State
delayed s = record s { clock = s.clock + 60 }

run_once_lem_example :
    Cycled toy_env free_rows delayed "w" 300 3600 two_jobs two_jobs-UniqueJobs
      (inl refl)
      (λ id s held. held)
      (run_once toy_env free_rows delayed "w" 300 3600 false two_jobs)
run_once_lem_example =
    run_once_lem toy_env free_rows delayed "w" 300 3600 two_jobs two_jobs-UniqueJobs (inl refl)
      (λ id s held. held)

two_jobs-WithinLimits : WithinLimits two_jobs
two_jobs-WithinLimits id user e = ground arith

claim_next_job-WithinLimits_example :
    WithinLimits (claim_next_job toy_env free_rows "w" 300 3600 two_jobs).1
claim_next_job-WithinLimits_example =
    claim_next_job-WithinLimits toy_env free_rows "w" 300 3600 two_jobs two_jobs-UniqueJobs
      two_jobs-WithinLimits

select_candidates_lem_example :
    let picked = select_candidates free_rows 500 300 two_jobs in
    Ordered picked
    × (length picked ≤ 10)
    × All (λ j. eligible free_rows 500 300 two_jobs j ≡ true) picked
    × ((i : Simulation)
        → eligible free_rows 500 300 two_jobs i ≡ true
        → Occurs i two_jobs.simulations
        → Occurs i picked ⊎ (length picked ≡ 10) × All (λ k. before k i ≡ true) picked)
select_candidates_lem_example = select_candidates_lem free_rows 500 300 two_jobs

try_candidate_lem_example :
    Tried toy_env "w" 3600 500 queued store (try_candidate toy_env "w" 3600 500 queued store)
try_candidate_lem_example = try_candidate_lem toy_env "w" 3600 500 queued store

-- A job that the worker runs, and that another worker takes over meanwhile.
abbrev held : Simulation
held = record queued { status = running; worker_id = some "w" }

abbrev taken_over : State → State
taken_over s = save (record held { worker_id = some "v" }) s

abbrev running_store : State
running_store = record store { simulations = held ∷ [] }

process_claimed_job_lem_example :
    let t = taken_over (run_engine toy_env held running_store).1 in
    let q = process_claimed_job toy_env taken_over held "w" running_store in
    (Lost "w" 7 t × (q ≡ (ok false, t))) ⊎ Held "w" 7 t × Stored 7 q
process_claimed_job_lem_example =
    process_claimed_job_lem toy_env taken_over held "w" running_store (inl refl)

transition_job_status_lem_example :
    let (r, s') = transition_job_status true held completed no_outcome running_store in
    (running ≡ completed) × (r ≡ ok held) × (s' ≡ running_store)
    ⊎ (Allowed running completed × (true ≡ true))
      × ((job' : Simulation) × (r ≡ ok job')
          × (job'.status ≡ completed)
          × (job'.id ≡ 7)
          × (job'.updated_at ≡ 500)
          × (s' ≡ save job' running_store))
    ⊎ (Allowed running completed × (true ≡ false)) × (r ≡ err crash) × (s' ≡ running_store)
    ⊎ ((running ≢ completed) × ¬ Allowed running completed)
      × (r ≡ err (invalid_state_transition running completed))
      × (s' ≡ running_store)
transition_job_status_lem_example =
    transition_job_status_lem true held completed no_outcome running_store

claim_next_job_progress_example :
    (k : Simulation) × ((claim_next_job toy_env free_rows "w" 300 3600 two_jobs).0 ≡ ok (some k))
unfolding select_candidates is_candidate order_by_age insert_by_age get_user_concurrency_capacity
claim_next_job_progress_example =
    claim_next_job_progress toy_env free_rows "w" 300 3600 two_jobs queued two_jobs-UniqueJobs first
      refl refl refl
