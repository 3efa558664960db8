-- ===== src/Usage/Period.antt =====
-- The accounting periods of app/services/usage.py: calendar months in UTC.
use behaviour_sim_api.Base.{◌+◌, ◌≤◌, ◌<◌, ◌≡◌, ◌↔◌, ◌⊎◌, arith}
use behaviour_sim_api.Store.Rows.{Instant}
use behaviour_sim_api.Store.Env.{Calendar}
use behaviour_sim_api.Usage.{get_current_period_start, get_current_period_end}

module _ (c : Calendar) where
  start-le : (t : Instant) → get_current_period_start c t ≤ t
  unfolding get_current_period_start
  start-le t = grind (arith, c.before_iff t (c.year t) (c.month t), c.month_pos t, c.month-le t)

  lt-end : (t : Instant) → t < get_current_period_end c t
  unfolding get_current_period_end
  lt-end t = grind (
    arith,
    c.before_iff t (c.year t) (c.month t + 1),
    c.before_iff t (c.year t + 1) 1,
    c.month_pos t,
    c.month-le t,
  )

  -- An instant before the end of a period is not in a later month.
  before_end :
      (t u : Instant)
      → u < get_current_period_end c t
      → (c.year u < c.year t) ⊎ (c.year u ≡ c.year t) × (c.month u ≤ c.month t)
  unfolding get_current_period_end
  before_end t u h = grind (
    arith,
    c.before_iff u (c.year t) (c.month t + 1),
    c.before_iff u (c.year t + 1) 1,
    c.month_pos t,
    c.month-le t,
    c.month_pos u,
    c.month-le u,
  )

  after_start :
      (t u : Instant)
      → get_current_period_start c t ≤ u
      → (c.year t < c.year u) ⊎ (c.year u ≡ c.year t) × (c.month t ≤ c.month u)
  unfolding get_current_period_start
  after_start t u h =
      grind (arith, c.before_iff u (c.year t) (c.month t), c.month_pos t, c.month-le t)

  same_month :
      (t u : Instant)
      → get_current_period_start c t ≤ u
      → u < get_current_period_end c t
      → (c.year u ≡ c.year t) × (c.month u ≡ c.month t)
  same_month t u h k = grind (arith, before_end t u k, after_start t u h)

  -- An instant at or after a period's start is in no earlier month; so equal starts mean one month.
  months_of_start :
      (t u : Instant)
      → get_current_period_start c u ≡ get_current_period_start c t
      → (c.year u ≡ c.year t) × (c.month u ≡ c.month t)
  months_of_start t u e =
      let f : get_current_period_start c t ≤ u = omega (arith, e, start-le u) in
      let g : get_current_period_start c u ≤ t = omega (arith, e, start-le t) in
      grind (arith, after_start t u f, after_start u t g)

  end_of_months :
      (t u : Instant)
      → (c.year u ≡ c.year t) × (c.month u ≡ c.month t)
      → get_current_period_end c u ≡ get_current_period_end c t
  unfolding get_current_period_end
  end_of_months t u h = rw (h.0, h.1)

  -- The instants from the start of a period up to its end are exactly those that have the same
  -- period start: the periods cover the time line and do not overlap.
  pub period_iff :
      (t u : Instant)
      → ((get_current_period_start c t ≤ u) × (u < get_current_period_end c t))
        ↔ (get_current_period_start c u ≡ get_current_period_start c t)
  unfolding get_current_period_start
  period_iff t u = (
    λ h. let m = same_month t u h.0 h.1 in cc (m.0, m.1),
    λ e. (
      omega (arith, e, start-le u),
      omega (arith, lt-end u, end_of_months t u (months_of_start t u e)),
    ),
  )
