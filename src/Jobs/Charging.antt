-- ===== src/Jobs/Charging.antt =====
-- What a run of `execute_simulation_job` (app/services/simulation_job.py) costs its user.
use behaviour_sim_api.Base.{
  ℕ, ◌+◌, ◌≤◌, ◌≡◌, ◌⊎◌, ◌∙◌, ap, refl, inl, inr, arith, true, false, ◌&&◌, List, Option, none,
  some, Bool-cases, find_first, ltb, leb, ltb→lt,
}
use behaviour_sim_api.Store.Rows.{
  Uuid, Instant, Records, MonthlyUsage, running, pending, completed, User, Plan, Simulation,
}
use behaviour_sim_api.Store.State.{State}
use behaviour_sim_api.Store.Env.{Env, complete_job, fail_job}
use behaviour_sim_api.Store.Action.{
  Action, ok, err, Result, Error, crash, pure, catch, Result-cases, ◌>>◌, bind_ok, bind_err,
  catch_ok, catch_err,
}
use behaviour_sim_api.Usage.{
  get_current_period_start, is_row, user_plan, record_usage_result, refund_rows, refund_usage,
  reserve_usage, add_event,
}
use behaviour_sim_api.Usage.Counts.{used, counts_of, UsageRows}
use behaviour_sim_api.Usage.Quota.{
  Room, reserve_usage_accepts, reserve_usage_refuses, reserve_usage_limit,
}
use behaviour_sim_api.Usage.Refund.{refund_usage-reserve_usage}
use behaviour_sim_api.Presets.Execute.{execute_simulation}
use behaviour_sim_api.Jobs.{
  save, no_outcome, transition_job_status, apply_transition, refund_and_record, fail_run,
  fail_persist, fail_quota, reserve_quota_for, finish_job, store_result, execute_simulation_job,
}
use behaviour_sim_api.Jobs.Steps.{
  execute_simulation-SameRows, running_to, running_lost, refund_state, fail_run_lem, fail_run_lost,
  fail_persist_lem,
}
use behaviour_sim_api.Jobs.Reservation.{starts, fail_quota_lem, fail_quota_lost}
use behaviour_sim_api.Jobs.Execution.{outcome_of}

module _ (env : Env) (job : Simulation) (user : User) (key : Option Uuid) where
  -- The usage rows of `s` after a refund at `now`.
  abbrev given_back : State → Instant → List MonthlyUsage
  given_back s now =
      refund_rows (get_current_period_start env.calendar now) user.id job.num_interactions 1 now
        s.monthly_usage

  -- A part of a run keeps the usage where it succeeds, and gives back what the job took where not,
  -- but for a completed state that the database has refused.
  abbrev Settles : State → Result Simulation × State → Type 0
  Settles s (r, s') =
      ((j : Simulation) × (r ≡ ok j) × (s'.monthly_usage ≡ s.monthly_usage))
      ⊎ ((e : Error) × (r ≡ err e) × (s'.monthly_usage ≡ given_back s s'.clock))
      ⊎ (r ≡ err crash) × (env.persists complete_job ≡ false) × (s'.monthly_usage ≡ s.monthly_usage)

  refund_state-usage :
      (s t : State)
      → t.monthly_usage ≡ s.monthly_usage
      → (refund_state env job user key t).monthly_usage
        ≡ given_back s (refund_state env job user key t).clock
  unfolding refund_and_record refund_usage record_usage_result add_event
  refund_state-usage s t a = rw a refl

  store_result-Settles :
      (v : Uuid × Records × ℕ) (s t : State)
      → t.monthly_usage ≡ s.monthly_usage
      → job.status ≡ running
      → Settles s (store_result env job user key v t)
  unfolding store_result record_usage_result add_event
  store_result-Settles (i, records, ms) s t same st =
      let o = outcome_of records ms in
      let m = transition_job_status (env.persists complete_job) job completed o in
      let h = fail_persist env job user key in
      let done = apply_transition t.clock completed o job in
      let tell : Simulation → Action Simulation = λ j.
        record_usage_result (some user) none "simulation_completed" true j.num_interactions
          (some ms) key
        >> pure j in
      elim (Bool-cases (env.persists complete_job)) [
        | inl c ↦
            rw
              (bind_ok (catch m h) tell t (
                catch_ok m h t (
                  running_to env job user key (env.persists complete_job) completed o t st
                    (inl refl) c)))
              (inl (done, refl, same))
        | inr c ↦
            let lost_commit : m t ≡ (err crash, t) =
              rw c (running_lost env job user key completed o t st (inl refl)) in
            rw
              (bind_err (catch m h) tell t
                (catch_err m h t lost_commit ∙ fail_persist_lem env job user key crash t c))
              (inr (inr (refl, c, same)))
      ]

  finish_job-Settles :
      (s : State) → job.status ≡ running → Settles s (finish_job env job user key s)
  unfolding finish_job
  finish_job-Settles s st =
      let m =
        execute_simulation env job.preset job.num_interactions job.seed job.profile
          job.initial_state in
      let same =
        execute_simulation-SameRows env job.preset job.num_interactions job.seed job.profile
          job.initial_state s in
      let h = fail_run env job user key in
      let t = (m s).1 in
      elim (Result-cases (m s).0) [
        | inl (v, e) ↦
            rw
              (bind_ok (catch m h) (store_result env job user key) s
                (catch_ok m h s (λ i. (e i, t))))
              (store_result-Settles v s t same.monthly_usage st)
        | inr (x, e) ↦
            let back = refund_state-usage s t same.monthly_usage in
            let rest = store_result env job user key in
            elim (Bool-cases (env.persists fail_job)) [
              | inl kept ↦
                  rw
                    (bind_err (catch m h) rest s
                      (catch_err m h s (λ i. (e i, t)) ∙ fail_run_lem env job user key x t st kept))
                    (inr (inl (_, refl, back)))
              | inr lost ↦
                  rw
                    (bind_err (catch m h) rest s (
                      catch_err m h s (λ i. (e i, t)) ∙ fail_run_lost env job user key x t st lost))
                    (inr (inl (_, refl, back)))
            ]
      ]

module _ (env : Env) (job : Simulation) (user : User) (key : Option Uuid) (s : State) (plan : Plan)
    (has_plan : user_plan s user ≡ some plan) (h : UsageRows s) where
  -- The reservation of the job's quota, from a state that says the same of usage and plans.
  reservation :
      let m = reserve_usage env user job.num_interactions 1 key none in
      let small = job.num_interactions ≤ plan.max_interactions_per_request in
      ((u : MonthlyUsage) × ((m s).0 ≡ ok u)
        × (small
            × Room plan job.num_interactions 1
                (used user.id (get_current_period_start env.calendar s.clock) s)))
      ⊎ ((e : Error) × ((m s).0 ≡ err e)
          × ((v : Uuid) (q : Instant) → used v q (m s).1 ≡ used v q s))
  reservation =
      let n = job.num_interactions in
      let now = used user.id (get_current_period_start env.calendar s.clock) s in
      elim (Bool-cases (ltb plan.max_interactions_per_request n)) [
        | inl large ↦
            rw (reserve_usage_limit env user n 1 key none s plan has_plan h (ltb→lt _ _ large))
              (inr (_, refl, λ v q. refl))
        | inr small ↦
            let fits_one : n ≤ plan.max_interactions_per_request = ground arith in
            elim (Bool-cases (
              leb (now.0 + 1) plan.monthly_requests && leb (now.1 + n) plan.monthly_interactions)) [
                | inl room ↦
                    let space : Room plan n 1 now = (ground arith, ground arith) in
                    let (u, r, _, _) =
                      reserve_usage_accepts env user n 1 key none s plan has_plan h fits_one
                        space in
                    inl (u, r, (fits_one, space))
                | inr full ↦
                    let (u, _, r, same, _) =
                      reserve_usage_refuses env user n 1 key none s plan has_plan h fits_one
                        (λ space. ground arith) in
                    inr (_, r, same)
              ]
      ]

module _ (env : Env) (job : Simulation) (user : User) (key : Option Uuid) (s : State) (plan : Plan)
    (st : job.status ≡ pending) (has_plan : user_plan s user ≡ some plan) (h : UsageRows s) where
  abbrev run : Result Simulation × State
  run = execute_simulation_job env job user key true s

  abbrev month : Instant
  month = get_current_period_start env.calendar s.clock

  abbrev Charged : State → Type 0
  Charged s' =
      used user.id month s'
      ≡ ((used user.id month s).0 + 1, (used user.id month s).1 + job.num_interactions)

  -- For a pending job of a user with a plan, and usage rows with distinct and used ids: a run with a
  -- reservation that begins and ends in one month costs its user one request and the job's
  -- interactions if it completes the job. If it raises, it costs nothing: every user has used as much
  -- as before, in every period; but where the database refuses the completed state, the run may end
  -- with an unhandled exception and stay charged.
  pub execute_simulation_job-charges :
      get_current_period_start env.calendar run.1.clock ≡ month
      → ((j : Simulation) × (run.0 ≡ ok j) × Charged run.1)
        ⊎ ((e : Error) × (run.0 ≡ err e) × ((v : Uuid) (q : Instant) → used v q run.1 ≡ used v q s))
        ⊎ (run.0 ≡ err crash) × (env.persists complete_job ≡ false) × Charged run.1
  unfolding execute_simulation_job reserve_quota_for apply_transition refund_usage
  execute_simulation_job-charges same_month =
      let go = apply_transition s.clock running no_outcome job in
      let t = save go s in
      let h' : UsageRows t = record { distinct = h.distinct; fresh = h.fresh } in
      let m = reserve_usage env user job.num_interactions 1 key none in
      let begin =
        bind_ok (transition_job_status true job running no_outcome)
          (λ j. reserve_quota_for env j user key true >> finish_job env j user key) s
          (starts env user key job s st) in
      elim (reservation env go user key t plan has_plan h') [
        | inl (u, r, (small, room)) ↦
            let t' = (m t).1 in
            let whole : run ≡ finish_job env go user key t' =
              begin
              ∙ bind_ok (catch (m >> pure tt) (fail_quota env go)) (λ _. finish_job env go user key)
                  t
                  (catch_ok (m >> pure tt) (fail_quota env go) t
                    (bind_ok m (λ _. pure tt) t (λ i. (r i, t')))) in
            let (_, _, counts, kept) =
              reserve_usage_accepts env user go.num_interactions 1 key none t plan has_plan h' small
                room in
            let restored =
              refund_usage-reserve_usage env user go.num_interactions 1 key none t plan has_plan h'
                small (finish_job env go user key t').1.clock room (rw whole at same_month) in
            rw whole (elim (finish_job-Settles env go user key t' refl) [
              | inl (j, ok_j, same) ↦ inl (
                j,
                ok_j,
                ap (λ rows. counts_of (find_first (is_row user.id month) rows)) same
                    ∙ kept
                    ∙ counts,
              )
              | inr (inl (e, err_e, same)) ↦ inr (
                  inl (
                    e,
                    err_e,
                    λ v q.
                        ap (λ rows. counts_of (find_first (is_row v q) rows)) same ∙ restored v q,
                  ))
              | inr (inr (unhandled, lost, same)) ↦ inr (
                  inr (
                    unhandled,
                    lost,
                    ap (λ rows. counts_of (find_first (is_row user.id month) rows)) same
                        ∙ kept
                        ∙ counts,
                  ))
            ])
        | inr (e, r, same) ↦
            let t' = (m t).1 in
            let refused =
              catch_err (m >> pure tt) (fail_quota env go) t
                (bind_err m (λ _. pure tt) t (λ i. (r i, t'))) in
            let then_finish = λ (x : Error) (u : State).
              bind_err (catch (m >> pure tt) (fail_quota env go)) (λ _. finish_job env go user key)
                t {x = x} {t = u} in
            elim (Bool-cases (env.persists fail_job)) [
              | inl accepted ↦
                  rw
                    (begin
                      ∙ then_finish _ _
                          (refused ∙ fail_quota_lem env user key go e t' refl accepted))
                    (inr (inl (e, refl, same)))
              | inr lost ↦
                  rw
                    (begin
                      ∙ then_finish _ _ (refused ∙ fail_quota_lost env user key go e t' refl lost))
                    (inr (inl (crash, refl, same)))
            ]
      ]
