-- ===== src/Worker/Claim.antt =====
-- What `claim_next_job` of app/services/worker.py does to the jobs, one candidate at a time.
use behaviour_sim_api.Base.{
  ℕ, ◌+◌, ◌<◌, ◌≤◌, Bool, false, ◌≡◌, ◌≢◌, ◌⊎◌, ◌∙◌, ap, refl, inl, inr, arith, true, List, Option,
  none, some, String, ◌==◌, ltb, leb, Bool-cases, find_first,
}
use behaviour_sim_api.Store.Rows.{
  Uuid, Instant, Status, pending, running, completed, failed, Simulation, MonthlyUsage,
}
use behaviour_sim_api.Store.State.{State}
use behaviour_sim_api.Store.Env.{Env}
use behaviour_sim_api.Store.Action.{Result, ok}
use behaviour_sim_api.Usage.{
  get_current_period_start, refund_rows, refund_usage, record_usage_result, add_event,
}
use behaviour_sim_api.Jobs.{save, get_job}
use behaviour_sim_api.Jobs.Lifecycle.{
  get_job-save_other, Follows, Follows-same, Follows-save, Follows-trans, ◌⟶*◌, ⟶*_one, here,
}
use behaviour_sim_api.Worker.{
  seconds, get_user_concurrency_capacity, abandon, expire, recover_job, claim_job, fail_and_refund,
  recovered, claimed, try_candidate,
}

-- The job `k` that a worker holds after it has claimed `j`.
pub record Claimed (worker_id : String) (now : Instant) (j k : Simulation) : Type 0 where
  pub same_id : k.id ≡ j.id
  pub same_user : k.user_id ≡ j.user_id
  pub runs : k.status ≡ running
  pub worker : k.worker_id ≡ some worker_id
  pub heartbeat : k.heartbeat_at ≡ some now
  pub attempt : k.attempt_count ≡ j.attempt_count + 1

-- The job `k` that is left of a job `j` that is given up.
pub record GivenUp (j k : Simulation) : Type 0 where
  pub same_id : k.id ≡ j.id
  pub same_user : k.user_id ≡ j.user_id
  pub ended : k.status ≡ failed

abbrev pub StatusCases : Status → Type 0
StatusCases a = (a ≡ pending) ⊎ (a ≡ running) ⊎ (a ≡ completed) ⊎ (a ≡ failed)

pub status_cases : (a : Status) → StatusCases a
status_cases a = ground arith

module _ (env : Env) (worker_id : String) (max_pending : ℕ) (now : Instant) (job : Simulation) where
  abbrev pub refunded_rows : State → List MonthlyUsage
  refunded_rows s =
      refund_rows (get_current_period_start env.calendar s.clock) job.user_id job.num_interactions 1
        s.clock s.monthly_usage

  -- A pending job that has waited too long, or a running one with no attempts left.
  abbrev pub Hopeless : Type 0
  Hopeless =
      (job.status ≡ pending) × (job.created_at + seconds max_pending < now)
      ⊎ (job.status ≡ running) × (job.max_attempts ≤ job.attempt_count)

  -- Another job, whose user has a free slot, or not.
  abbrev pub Hopeful : Bool → State → Type 0
  Hopeful free s =
      (job.status ≡ pending)
        × (now ≤ job.created_at + seconds max_pending)
        × (get_user_concurrency_capacity job.user_id none s ≡ free)
      ⊎ (job.status ≡ running)
        × (job.attempt_count < job.max_attempts)
        × (get_user_concurrency_capacity job.user_id (some job.id) s ≡ free)

  -- The three ways in which the loop leaves a candidate: as it is, failed with a refund, or claimed.
  abbrev pub Passed : State → Result (Option Simulation) × State → Type 0
  Passed s (r, s') =
      (r ≡ ok none)
      × (s'.simulations ≡ s.simulations)
      × (s'.monthly_usage ≡ s.monthly_usage)
      × (Hopeful false s ⊎ (job.status ≡ completed) ⊎ (job.status ≡ failed))

  abbrev pub Dropped : State → Result (Option Simulation) × State → Type 0
  Dropped s (r, s') =
      (k : Simulation) × GivenUp job k
      × Hopeless
      × (r ≡ ok none)
      × (s'.simulations ≡ (save k s).simulations)
      × (s'.monthly_usage ≡ refunded_rows s)

  abbrev pub Taken : State → Result (Option Simulation) × State → Type 0
  Taken s (r, s') =
      (k : Simulation) × Claimed worker_id now job k
      × (r ≡ ok (some k))
      × (s'.simulations ≡ (save k s).simulations)
      × (s'.monthly_usage ≡ s.monthly_usage)
      × Hopeful true s

  abbrev pub Tried : State → Result (Option Simulation) × State → Type 0
  Tried s q = (Passed s q ⊎ Dropped s q ⊎ Taken s q) × (q.1.users ≡ s.users) × (q.1.plans ≡ s.plans)

  -- The loop leaves a candidate in one of three ways. A pending job that has waited too long, or a
  -- running one with no attempts left, is failed, its interactions and one request are taken off its
  -- user's counts of the current period, and the loop goes on. Another pending or running job is
  -- claimed and returned if its user has a free slot, and else the loop goes on and changes neither
  -- jobs nor usage, as for a job that has ended. Users and plans stay as they are.
  pub try_candidate_lem : (s : State) → Tried s (try_candidate env worker_id max_pending now job s)
  unfolding try_candidate abandon expire recover_job claim_job fail_and_refund refund_usage
      record_usage_result add_event
  try_candidate_lem s = elim (status_cases job.status) [
    | inl st ↦ elim (Bool-cases (ltb (job.created_at + seconds max_pending) now)) [
      | inl late ↦
          rw (st, late)
            (
              inr (
                  inl (
                    _,
                    record { same_id = refl; same_user = refl; ended = refl },
                    inl (refl, ground arith),
                    refl,
                    refl,
                    refl,
                  )),
              refl,
              refl,
            )
      | inr young ↦ elim (Bool-cases (get_user_concurrency_capacity job.user_id none s)) [
        | inl free ↦
            rw (st, young, free)
              (
                inr (
                    inr (
                      claimed worker_id now job,
                      record {
                        same_id = refl;
                        same_user = refl;
                        runs = refl;
                        worker = refl;
                        heartbeat = refl;
                        attempt = refl;
                      },
                      refl,
                      refl,
                      refl,
                      inl (refl, ground arith, refl),
                    )),
                refl,
                refl,
              )
        | inr busy ↦
            rw (st, young, busy)
              (inl (refl, refl, refl, inl (inl (refl, ground arith, refl))), refl, refl)
      ]
    ]
    | inr (inl st) ↦ elim (Bool-cases (leb job.max_attempts job.attempt_count)) [
      | inl spent ↦
          rw (st, spent)
            (
              inr (
                  inl (
                    _,
                    record { same_id = refl; same_user = refl; ended = refl },
                    inr (refl, ground arith),
                    refl,
                    refl,
                    refl,
                  )),
              refl,
              refl,
            )
      | inr left ↦ elim (Bool-cases (get_user_concurrency_capacity job.user_id (some job.id) s)) [
        | inl free ↦
            rw (st, left, free)
              (
                inr (
                    inr (
                      recovered worker_id now (record job { status = running }),
                      record {
                        same_id = refl;
                        same_user = refl;
                        runs = refl;
                        worker = refl;
                        heartbeat = refl;
                        attempt = refl;
                      },
                      refl,
                      refl,
                      refl,
                      inr (refl, ground arith, refl),
                    )),
                refl,
                refl,
              )
        | inr busy ↦
            rw (st, left, busy)
              (inl (refl, refl, refl, inl (inr (refl, ground arith, refl))), refl, refl)
      ]
    ]
    | inr (inr (inl st)) ↦ rw st (inl (refl, refl, refl, inr (inl refl)), refl, refl)
    | inr (inr (inr st)) ↦ rw st (inl (refl, refl, refl, inr (inr refl)), refl, refl)
  ]

  -- What the loop needs of a candidate: the row is as it was read.
  abbrev Row : State → Type 0
  Row s = get_job job.id s ≡ some job

  move : (k : Simulation) → Hopeless → k.status ≡ failed → job.status ⟶* k.status
  move k st e = ⟶*_one (ground arith)

  pub try_candidate-Follows :
      (s : State) → Row s → Follows s (try_candidate env worker_id max_pending now job s).1
  try_candidate-Follows s row =
      let t = (try_candidate env worker_id max_pending now job s).1 in
      elim (try_candidate_lem s).0 [
        | inl (_, same, _, _) ↦ Follows-same s t same
        | inr (inl (k, given, st, _, saved, _)) ↦
            Follows-trans
              (Follows-save job k s (ap (λ i. get_job i s) given.same_id ∙ row)
                (move k st given.ended))
              (Follows-same (save k s) t saved)
        | inr (inr (k, taken, _, saved, _, from)) ↦
            Follows-trans
              (Follows-save job k s (ap (λ i. get_job i s) taken.same_id ∙ row) (elim from [
                | inl (st, _, _) ↦ ⟶*_one (ground (arith, taken.runs))
                | inr (st, _, _) ↦ rw (st, taken.runs) here
              ]))
              (Follows-same (save k s) t saved)
      ]

  -- The other rows stay.
  pub try_candidate-others :
      (s : State) (id : Uuid)
      → id ≢ job.id
      → get_job id (try_candidate env worker_id max_pending now job s).1 ≡ get_job id s
  try_candidate-others s id ne = elim (try_candidate_lem s).0 [
    | inl (_, same, _, _) ↦ ap (find_first (λ j. j.id == id)) same
    | inr (inl (k, given, _, _, saved, _)) ↦
        ap (find_first (λ j. j.id == id)) saved
        ∙ get_job-save_other id k s (ground (arith, given.same_id))
    | inr (inr (k, taken, _, saved, _, _)) ↦
        ap (find_first (λ j. j.id == id)) saved
        ∙ get_job-save_other id k s (ground (arith, taken.same_id))
  ]
