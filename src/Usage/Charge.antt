-- ===== src/Usage/Charge.antt =====
-- The two ends of `reserve_usage`: the charge to a row, and the refusal.
use behaviour_sim_api.Base.{
  ℕ, ◌+◌, ◌<◌, ◌≡◌, refl, inl, inr, arith, true, false, ◌&&◌, Option, some, String, List, ltb, ◌==◌,
  if◌then◌else◌, Option-cases, All-imp, All-update_where, find_first, update_where,
  UniqueKeys-update_where, find_first-update_where, ==_refl,
}
use behaviour_sim_api.Store.Rows.{Uuid, Instant, Plan, User, MonthlyUsage}
use behaviour_sim_api.Store.State.{State}
use behaviour_sim_api.Store.Action.{ok, err}
use behaviour_sim_api.Usage.{
  is_row, charge_usage, quota_exhausted, add_usage, fits, request_quota_exceeded,
  interaction_quota_exceeded,
}
use behaviour_sim_api.Metrics.{record_quota_exhausted}
use behaviour_sim_api.Usage.Counts.{counts_of, used, UsageRows, by_id, not_charged}

module _ (user : User) (plan : Plan) (requested delta : ℕ) (key : Option Uuid) (rid : Option String)
    (period : Instant) (s : State) (h : UsageRows s) (u : MonthlyUsage)
    (found : find_first (is_row user.id period) s.monthly_usage ≡ some u) where
  abbrev charged : MonthlyUsage
  charged = add_usage requested delta s.clock u

  abbrev charged_rows : List MonthlyUsage
  charged_rows =
      update_where (λ v. v.id == u.id && fits plan requested delta v)
        (add_usage requested delta s.clock) s.monthly_usage

  charged_by_id :
      fits plan requested delta u ≡ true
      → find_first (λ v. v.id == u.id) charged_rows ≡ some charged
  charged_by_id f = rw (
    find_first-update_where (λ v. v.id == u.id) _ (add_usage requested delta s.clock)
        s.monthly_usage (λ a _. refl),
    by_id user.id period s h u found,
    ==_refl u.id,
    f,
  )

  -- The charge goes through: the row counts the request, and no other user or period changes.
  pub charge_usage_lem :
      fits plan requested delta u ≡ true
      → let (r, s') = charge_usage user plan requested delta key rid u s in
        (r ≡ ok charged)
        × (used user.id period s' ≡ (u.request_count + delta, u.interaction_count + requested))
        × UsageRows s'
        × (s'.plans ≡ s.plans)
        × (s'.clock ≡ s.clock)
  unfolding charge_usage
  charge_usage_lem f = rw (charged_by_id f) (
    refl,
    rw
        (
          find_first-update_where (is_row user.id period) _ (add_usage requested delta s.clock)
              s.monthly_usage (λ a _. refl),
          found,
          ==_refl u.id,
          f,
        )
        refl,
    record {
      distinct =
          UniqueKeys-update_where (λ v. v.id) _ (add_usage requested delta s.clock) s.monthly_usage
            (λ a _. refl) h.distinct;
      fresh =
          All-update_where (λ v. v.id < s.next_uuid + 1) _ (add_usage requested delta s.clock)
            s.monthly_usage (λ a _ k. k)
            (All-imp (λ v. v.id < s.next_uuid) _ s.monthly_usage (λ a k. omega arith) h.fresh);
    },
    refl,
    refl,
  )

  rows-others :
      (v : Uuid) (q : Instant)
      → ((v == user.id) && (q == period)) ≡ false
      → counts_of (find_first (is_row v q) charged_rows)
        ≡ counts_of (find_first (is_row v q) s.monthly_usage)
  rows-others v q ne =
      rw
        (find_first-update_where (is_row v q) (λ w. w.id == u.id && fits plan requested delta w)
          (add_usage requested delta s.clock) s.monthly_usage (λ a _. refl))
        (elim (Option-cases (find_first (is_row v q) s.monthly_usage)) [
          | inl e ↦ rw e
          | inr (w, e) ↦ rw (e, not_charged user.id period s h u found v q w ne e)
        ])

  pub charge_usage-others :
      fits plan requested delta u ≡ true
      → (v : Uuid) (q : Instant) → ((v == user.id) && (q == period)) ≡ false
      → used v q (charge_usage user plan requested delta key rid u s).1 ≡ used v q s
  unfolding charge_usage
  charge_usage-others f v q ne = rw (charged_by_id f) (rows-others v q ne)

  -- The refusal changes only the metrics.
  pub quota_exhausted_lem : quota_exhausted plan delta u s ≡ (
    err (
        if ltb plan.monthly_requests (u.request_count + delta)
        then request_quota_exceeded plan u
        else interaction_quota_exceeded plan u),
    record s { metrics = record_quota_exhausted s.metrics },
  )
  unfolding quota_exhausted
  quota_exhausted_lem = ground (arith, by_id user.id period s h u found)
