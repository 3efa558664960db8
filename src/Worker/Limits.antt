-- ===== src/Worker/Limits.antt =====
-- The limit on the jobs of a user that run at once, which `claim_next_job` of app/services/worker.py
-- keeps by `get_user_concurrency_capacity`.
use behaviour_sim_api.Base.{
  ℕ, ◌+◌, ◌≤◌, ◌<◌, ◌≡◌, ◌∙◌, ap, sym, inl, inr, arith, Bool, true, ◌&&◌, List, [], ◌∷◌, none, some,
  String, ◌==◌, All-imp, Bool-cases, find_first, count_where, count_where-update_key, if◌then◌else◌,
  ltb, ltb→lt, refl,
}
use behaviour_sim_api.Store.Rows.{Uuid, Instant, User, Simulation}
use behaviour_sim_api.Store.State.{State}
use behaviour_sim_api.Store.Env.{Env}
use behaviour_sim_api.Jobs.{get_job, save}
use behaviour_sim_api.Jobs.Lifecycle.{UniqueJobs}
use behaviour_sim_api.Worker.{
  runs_for, plan_limit, max_concurrent, get_user_concurrency_capacity, try_candidate, claim_loop,
  claim_next_job, select_candidates,
}
use behaviour_sim_api.Worker.Order.{select_candidates-rows}
use behaviour_sim_api.Worker.Claim.{try_candidate_lem, try_candidate-Follows}
use behaviour_sim_api.Worker.Loop.{claim_loop-on, claim_loop-stop, Rows, rest-Rows}

-- No user has more running jobs than the plan allows.
abbrev pub WithinLimits : State → Type 0
WithinLimits s =
    (id : Uuid) (user : User)
    → find_first (λ u. u.id == id) s.users ≡ some user
    → count_where (runs_for id) s.simulations ≤ max_concurrent s user

pub count_where-all :
    (p : Simulation → Bool) (js : List Simulation)
    → count_where (λ j. p j && true) js ≡ count_where p js
count_where-all p [] = refl
count_where-all p (j ∷ js) = ground (arith, count_where-all p js)

-- With a free slot in `get_user_concurrency_capacity`, a user has fewer running jobs than the plan
-- allows.
capacity-count :
    (id : Uuid) (user : User) (s : State)
    → find_first (λ u. u.id == id) s.users ≡ some user
    → get_user_concurrency_capacity id none s ≡ true
    → count_where (runs_for id) s.simulations < max_concurrent s user
unfolding get_user_concurrency_capacity
capacity-count id user s e h =
    elim (Bool-cases
      (ltb (count_where (λ j. runs_for id j && true) s.simulations) (max_concurrent s user))) [
        | inl free ↦ rw (sym (count_where-all (runs_for id) s.simulations)) (ltb→lt _ _ free)
        | inr busy ↦ ground (arith, e, busy, h)
      ]

-- The count of a user's running jobs after a job's row is written over.
pub count-save :
    (id : Uuid) (j k : Simulation) (s : State)
    → UniqueJobs s
    → get_job j.id s ≡ some j
    → k.id ≡ j.id
    → count_where (runs_for id) (save k s).simulations + (if runs_for id j then 1 else 0)
      ≡ count_where (runs_for id) s.simulations + (if runs_for id k then 1 else 0)
count-save id j k s u e same =
    count_where-update_key (λ x. x.id) (runs_for id) s.simulations j k u (sym same)
      (ap (λ i. get_job i s) same ∙ e)

module _ (env : Env) (worker_id : String) (max_pending : ℕ) (now : Instant) where
  try_candidate-WithinLimits :
      (job : Simulation) (s : State)
      → UniqueJobs s
      → get_job job.id s ≡ some job
      → WithinLimits s
      → WithinLimits (try_candidate env worker_id max_pending now job s).1
  try_candidate-WithinLimits job s u row h id user e =
      let t = (try_candidate env worker_id max_pending now job s).1 in
      let (how, users, plans) = try_candidate_lem env worker_id max_pending now job s in
      let was : find_first (λ v. v.id == id) s.users ≡ some user =
        ap (find_first (λ v. v.id == id)) (sym users) ∙ e in
      let limit : max_concurrent t user ≡ max_concurrent s user =
        ap (λ ps. plan_limit (find_first (λ p. p.id == user.plan_id) ps)) plans in
      let before = h id user was in
      elim how [
        | inl (_, same, _, _) ↦ rw (same, limit) before
        | inr (inl (k, given, _, _, saved, _)) ↦
            rw (saved, limit)
              (ground (arith, count-save id job k s u row given.same_id, before, given.ended))
        | inr (inr (k, taken, _, saved, _, from)) ↦
            rw (saved, limit)
              (elim from [
                | inl (st, _, free) ↦ elim (Bool-cases (job.user_id == id)) [
                  | inl mine ↦
                      let same : job.user_id ≡ id = ground arith in
                      let room = capacity-count id user s was (rw same at free) in
                      ground (arith, count-save id job k s u row taken.same_id, room)
                  | inr other ↦ ground (
                    arith,
                    count-save id job k s u row taken.same_id,
                    before,
                    taken.same_user,
                    other,
                  )
                ]
                | inr (st, _, _) ↦ ground (
                  arith,
                  count-save id job k s u row taken.same_id,
                  before,
                  taken.runs,
                  taken.same_user,
                  st,
                )
              ])
      ]

  claim_loop-WithinLimits :
      (jobs : List Simulation) (s : State)
      → UniqueJobs s
      → Rows env worker_id max_pending now jobs s
      → WithinLimits s
      → WithinLimits (claim_loop env worker_id max_pending now jobs s).1
  unfolding claim_loop
  claim_loop-WithinLimits [] s u rows h = h
  claim_loop-WithinLimits (job ∷ jobs) s u rows h =
      let m = try_candidate env worker_id max_pending now job s in
      let step = try_candidate-WithinLimits job s u rows.1.0 h in
      let rest =
        claim_loop-WithinLimits jobs m.1
          ((try_candidate-Follows env worker_id max_pending now job s rows.1.0).unique u)
          (rest-Rows env worker_id max_pending now job jobs s rows) step in
      elim (try_candidate_lem env worker_id max_pending now job s).0 [
        | inl (e, _, _, _) ↦ rw (claim_loop-on env worker_id max_pending now job jobs s e) rest
        | inr (inl (_, _, _, e, _, _)) ↦
            rw (claim_loop-on env worker_id max_pending now job jobs s e) rest
        | inr (inr (k, _, e, _, _, _)) ↦
            rw (claim_loop-stop env worker_id max_pending now job jobs s k e) step
      ]

-- Where the jobs' ids are distinct, a claim keeps every user within the number of running jobs that the plan allows, with whatever
-- rows other transactions hold.
pub claim_next_job-WithinLimits :
    (env : Env) (locked : Uuid → Bool) (worker_id : String) (lease max_pending : ℕ) (s : State)
    → UniqueJobs s
    → WithinLimits s
    → WithinLimits (claim_next_job env locked worker_id lease max_pending s).1
unfolding claim_next_job
claim_next_job-WithinLimits env locked worker_id lease max_pending s u h =
    let picked = select_candidates locked s.clock lease s in
    let (ids, rows) = select_candidates-rows locked s.clock lease s u in
    claim_loop-WithinLimits env worker_id max_pending s.clock picked s u
      (ids, All-imp _ _ picked (λ j r. r.0) rows) h
