-- ===== src/Worker.antt =====
-- app/services/worker.py: claiming jobs, heartbeats, and the end of a claimed job. Commits succeed,
-- but for the two whose failure the code handles. `locked` tells the rows that other transactions
-- hold, which SKIP LOCKED passes over.
pub mod Process
pub mod Discard
pub mod Cycle
pub mod Order
pub mod Claim
pub mod Loop
pub mod Next
pub mod Limits
pub mod Progress
use behaviour_sim_api.Base.{
  ℕ, ◌+◌, ◌-◌, ◌*◌, ◌/◌, ◌≡◌, Bool, true, false, ◌&&◌, ◌||◌, not, Option, none, some, List, [], ◌∷◌,
  String, ltb, leb, ◌==◌, str_eq, if◌then◌else◌, is_some, some_or, find_first, select_where,
  count_where, take,
}
use behaviour_sim_api.Store.Rows.{
  Text, Uuid, Instant, Records, Status, pending, running, completed, failed, User, Plan, Simulation,
  Message, number, Datum,
}
use behaviour_sim_api.Store.State.{State}
use behaviour_sim_api.Store.Env.{Env}
use behaviour_sim_api.Store.Action.{Result, ok, err, Action, pure, modify, ◌>>=◌, ◌>>◌}
use behaviour_sim_api.Metrics.{
  Metrics, record_simulation_failed, record_simulation_exhausted_retries,
  record_simulation_recovered, record_simulation_started,
}
use behaviour_sim_api.Usage.{refund_usage, record_usage_result}
use behaviour_sim_api.Jobs.{status_eq, save}

-- `timedelta(seconds=n)` in microseconds.
abbrev pub seconds : ℕ → ℕ
seconds n = n * 1_000_000

abbrev pub runs_for : Uuid → Simulation → Bool
runs_for user_id j = j.user_id == user_id && status_eq j.status running

abbrev pub other_than : Option Uuid → Simulation → Bool
other_than none j = true
other_than (some id) j = not (j.id == id)

-- The limit of the user's plan, where it has one and that is not 0; else 1.
abbrev pub plan_limit : Option Plan → ℕ
plan_limit none = 1
plan_limit (some plan) =
    if plan.max_concurrent_simulations == 0 then 1 else plan.max_concurrent_simulations

abbrev pub max_concurrent : State → User → ℕ
max_concurrent s user = plan_limit (find_first (λ p. p.id == user.plan_id) s.plans)

unfoldable pub get_user_concurrency_capacity : Uuid → Option Uuid → State → Bool
get_user_concurrency_capacity user_id current_job_id s =
    elim (find_first (λ u. u.id == user_id) s.users) [
      | none ↦ false
      | some user ↦
          user.is_active
          && ltb
              (count_where (λ j. runs_for user_id j && other_than current_job_id j) s.simulations)
              (max_concurrent s user)
    ]

-- The `where` clause of the query; `heartbeat_at < now - lease` without a negative instant.
abbrev pub lease_expired : Instant → ℕ → Option Instant → Bool
lease_expired now lease none = true
lease_expired now lease (some h) = ltb (h + seconds lease) now

unfoldable pub is_candidate : Instant → ℕ → Simulation → Bool
is_candidate now lease j =
    status_eq j.status pending
    || (status_eq j.status running && lease_expired now lease j.heartbeat_at)

-- ORDER BY created_at, id
abbrev pub before : Simulation → Simulation → Bool
before j k = ltb j.created_at k.created_at || (j.created_at == k.created_at && leb j.id k.id)

unfoldable pub insert_by_age : Simulation → List Simulation → List Simulation
insert_by_age j [] = j ∷ []
insert_by_age j (k ∷ ks) =
    let rest = insert_by_age j ks in if before j k then j ∷ k ∷ ks else k ∷ rest

unfoldable pub order_by_age : List Simulation → List Simulation
unfolding insert_by_age
order_by_age [] = []
order_by_age (j ∷ js) = insert_by_age j (order_by_age js)

unfoldable pub select_candidates : (Uuid → Bool) → Instant → ℕ → State → List Simulation
unfolding is_candidate order_by_age
select_candidates locked now lease s =
    take 10 (
      order_by_age
        (select_where (λ j. is_candidate now lease j && not (locked j.id)) s.simulations))

-- A job that ends as failed, with a refund: the fields that are assigned.
abbrev pub failed_as : Simulation → Instant → String → Message → Simulation
failed_as job now code message = record job {
  status = failed;
  error_code = some code;
  error_message = some message;
  completed_at = some now;
  updated_at = now;
}

unfoldable pub fail_and_refund :
    Env → Simulation → Uuid → ℕ → Instant → String → Message → Action (Unit {0})
unfolding refund_usage record_usage_result
fail_and_refund env job user_id num_interactions now code message = do
  modify (save (failed_as job now code message))
  refund_usage env none (some user_id) num_interactions 1
  record_usage_result none (some user_id) "simulation_failed" false 0 (some 0) none

abbrev pub count_metric : (Metrics → Metrics) → Action (Unit {0})
count_metric f = modify (λ s. record s { metrics = f s.metrics })

-- Case A, attempts used up.
unfoldable pub abandon : Env → Simulation → Instant → Action (Unit {0})
unfolding fail_and_refund
abandon env job now = do
  fail_and_refund env job job.user_id job.num_interactions now "execution_timeout" (record {
    template = "Job abandoned or exceeded maximum retry attempts ({}).";
    values = number job.max_attempts ∷ [];
  })
  count_metric (record_simulation_failed "execution_timeout")
  count_metric record_simulation_exhausted_retries

-- Case B, queued too long.
unfoldable pub expire : Env → ℕ → Simulation → Instant → Action (Unit {0})
unfolding fail_and_refund
expire env max_pending job now = do
  fail_and_refund env job job.user_id job.num_interactions now "queue_timeout" (record {
    template = "Simulation queued longer than maximum wait time ({}s).";
    values = number max_pending ∷ [];
  })
  count_metric (record_simulation_failed "queue_timeout")

-- The fields that a recovery assigns.
abbrev pub recovered : String → Instant → Simulation → Simulation
recovered worker_id now job = record job {
  attempt_count = job.attempt_count + 1;
  worker_id = some worker_id;
  claimed_at = some now;
  heartbeat_at = some now;
  updated_at = now;
}

-- The fields that a claim of a pending job assigns.
abbrev pub claimed : String → Instant → Simulation → Simulation
claimed worker_id now job = record job {
  attempt_count = job.attempt_count + 1;
  status = running;
  worker_id = some worker_id;
  claimed_at = some now;
  heartbeat_at = some now;
  started_at = some (some_or job.started_at now);
  updated_at = now;
}

unfoldable pub recover_job : String → Simulation → Instant → Action (Option Simulation)
recover_job worker_id job now = do
  modify (save (recovered worker_id now job))
  count_metric record_simulation_recovered
  count_metric record_simulation_started
  pure (some (recovered worker_id now job))

unfoldable pub claim_job : String → Simulation → Instant → Action (Option Simulation)
claim_job worker_id job now = do
  modify (save (claimed worker_id now job))
  count_metric record_simulation_started
  pure (some (claimed worker_id now job))

-- What the loop does with one candidate: `none` goes on to the next one.
unfoldable pub try_candidate : Env → String → ℕ → Instant → Simulation → Action (Option Simulation)
unfolding abandon expire recover_job claim_job get_user_concurrency_capacity
try_candidate env worker_id max_pending now job s = elim job.status [
  | running ↦
      if leb job.max_attempts job.attempt_count
      then (abandon env job now >> pure none) s
      else (if get_user_concurrency_capacity job.user_id (some job.id) s
          then recover_job worker_id job now s
          else pure none s)
  | pending ↦
      if ltb (job.created_at + seconds max_pending) now
      then (expire env max_pending job now >> pure none) s
      else (if get_user_concurrency_capacity job.user_id none s
          then claim_job worker_id job now s
          else pure none s)
  | _ ↦ pure none s
]

unfoldable pub claim_loop :
    Env → String → ℕ → Instant → List Simulation → Action (Option Simulation)
unfolding try_candidate
claim_loop env worker_id max_pending now [] s = pure none s
claim_loop env worker_id max_pending now (job ∷ jobs) s =
    let (r, s') = try_candidate env worker_id max_pending now job s in
    let rest = claim_loop env worker_id max_pending now jobs s' in
    elim r [ ok (some j) ↦ (ok (some j), s') | ok none ↦ rest | err e ↦ (err e, s') ]

unfoldable pub claim_next_job : Env → (Uuid → Bool) → String → ℕ → ℕ → Action (Option Simulation)
unfolding select_candidates claim_loop
claim_next_job env locked worker_id lease max_pending s =
    claim_loop env worker_id max_pending s.clock (select_candidates locked s.clock lease s) s
