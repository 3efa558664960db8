-- ===== src/Tests/Services.antt =====
-- The theorems on retention and the concurrency limiter at concrete data.
use behaviour_sim_api.Base.{
  ℕ, Option, ◌<◌, ◌+◌, ◌≤◌, ◌≡◌, ◌≢◌, ◌↔◌, ◌⊎◌, arith, Bool, true, false, none, some, [], ◌∷◌, refl,
  count_where, delete_where,
}
use behaviour_sim_api.Store.Rows.{Uuid, completed}
use behaviour_sim_api.Store.State.{State}
use behaviour_sim_api.Store.Action.{ok}
use behaviour_sim_api.Retention.{
  CleanupRequest, CleanupResult, cleanup_expired_simulations, may_delete,
}
use behaviour_sim_api.Retention.Loop.{cleanup_expired_simulations_lem}
use behaviour_sim_api.Concurrency.{
  ActiveCounts, releases, acquire, release, call, get_active_count, NoZero, call-NoZero,
  acquire_lem, release-acquire,
}
use behaviour_sim_api.RateLimit
use behaviour_sim_api.RateLimit.{RateLimiter, check_rate_limit}
use behaviour_sim_api.RateLimit.Window.{start, call_at, allowed, log_call, check_rate_limit_lem}
use behaviour_sim_api.Tests.{queued, store}

-- An old completed job beside a pending one.
abbrev old_jobs : State
old_jobs = record store { simulations = queued ∷ record queued { id = 8; status = completed } ∷ [] }

abbrev nightly : CleanupRequest
nightly = record {
  retention_days = 30;
  batch_size = 1;
  dry_run = false;
  cutoff_override = some 450;
}

abbrev free_rows : Uuid → Bool
free_rows id = false

cleanup_expired_simulations_lem_example :
    (result : CleanupResult) × (s' : State) × (cleanup_expired_simulations free_rows
        (λ n. none)
        5
        nightly
        3
        old_jobs
      ≡ some (ok result, s'))
    × (s'.simulations ≡ delete_where (may_delete free_rows 450) old_jobs.simulations)
    × (result.deleted_count ≡ count_where (may_delete free_rows 450) old_jobs.simulations)
    × (result.success ≡ true)
    × (s'.monthly_usage ≡ old_jobs.monthly_usage)
cleanup_expired_simulations_lem_example =
    cleanup_expired_simulations_lem free_rows 5 nightly 3 old_jobs (omega arith) (omega arith)
      (omega arith) refl (((λ e. omega (arith, e)), tt), (tt, tt)) (omega arith)

abbrev one_slot : ActiveCounts
one_slot = (1, 1) ∷ []

one_slot-NoZero : NoZero one_slot
one_slot-NoZero uid e = ground (arith, e)

acquire_lem_example :
    let (granted, b) = acquire 1 2 one_slot in
    ((granted ≡ true)
        × (get_active_count 1 b ≡ get_active_count 1 one_slot + 1)
        × (get_active_count 1 b ≤ 2)
      ⊎ (granted ≡ false) × (b ≡ one_slot) × (2 ≤ get_active_count 1 one_slot))
    × ((v : Uuid) → v ≢ 1 → get_active_count v b ≡ get_active_count v one_slot)
acquire_lem_example = acquire_lem 1 2 one_slot

release-acquire_example :
    get_active_count 1 (release 1 (acquire 1 2 one_slot).1).1 ≡ get_active_count 1 one_slot
unfolding get_active_count
release-acquire_example = release-acquire 1 2 one_slot (omega arith) 1

call-NoZero_example : NoZero (call (releases 1) one_slot)
call-NoZero_example = call-NoZero (releases 1) one_slot one_slot-NoZero

-- The limiter and the log after one call.
abbrev once : Option (Bool × ℕ) × RateLimiter
once = check_rate_limit "1" 2 60 1_000_000 RateLimit.reset

check_rate_limit_lem_example :
    ((check_rate_limit "1" 2 60 5_000_000 once.1).0 ≡ some (true, 0))
    ↔ (allowed 60 "1" 5_000_000 (log_call 60 "1" 1_000_000 once.0 []) < 2)
check_rate_limit_lem_example =
    check_rate_limit_lem 60 "1" 2 5_000_000 (call_at "1" 2 1_000_000 start (omega arith))
      (omega arith)
