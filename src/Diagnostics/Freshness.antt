-- ===== src/Diagnostics/Freshness.antt =====
-- How old the answers of app/api/v1/diagnostics.py may be.
use behaviour_sim_api.Base.{
  ◌+◌, ◌≤◌, ◌<◌, ◌≡◌, ◌⊎◌, refl, ap, ◌∙◌, inl, inr, ltb→lt, arith, Bool-cases, List, [], ◌∷◌, ltb,
}
use behaviour_sim_api.Store.State.{State}
use behaviour_sim_api.Worker.Order.{Occurs, first, later}
use behaviour_sim_api.Diagnostics.{
  Rounding, QueueCache, reset_diagnostics_cache, queue_status, get_cached_queue_metrics,
  queue_cache_ttl, get_diagnostics,
}

module _ (round : Rounding) where
  -- The cache after requests in the given states, the last one first.
  unfoldable pub cache_after : List State → QueueCache
  cache_after [] = reset_diagnostics_cache
  cache_after (s ∷ earlier) = (get_diagnostics round s (cache_after earlier)).1

  -- The cache is empty, or what the queue was at one of the requests.
  abbrev Honest : List State → QueueCache → Type 0
  Honest states cache =
      (cache ≡ reset_diagnostics_cache)
      ⊎ (u : State) × Occurs u states
        × (cache.time ≡ u.clock)
        × (cache.cached ≡ queue_status round u)

  step-cases :
      (s : State) (cache : QueueCache)
      → let (answer, cache') = get_diagnostics round s cache in
        ((s.clock < cache.time + queue_cache_ttl) × (answer.0 ≡ cache.cached) × (cache' ≡ cache))
        ⊎ (answer.0 ≡ queue_status round s)
          × (cache' ≡ record { time = s.clock; cached = queue_status round s })
  unfolding get_diagnostics get_cached_queue_metrics
  step-cases s cache = elim (Bool-cases (ltb s.clock (cache.time + queue_cache_ttl))) [
    | inl e ↦ inl (
      ltb→lt _ _ e,
      rw (get_diagnostics, get_cached_queue_metrics, e) refl,
      rw (get_diagnostics, get_cached_queue_metrics, e) refl,
    )
    | inr e ↦ inr (
      rw (get_diagnostics, get_cached_queue_metrics, e) refl,
      rw (get_diagnostics, get_cached_queue_metrics, e) refl,
    )
  ]

  cache_after-Honest : (states : List State) → Honest states (cache_after states)
  unfolding cache_after
  cache_after-Honest [] = inl refl
  cache_after-Honest (s ∷ earlier) = elim (step-cases s (cache_after earlier)) [
    | inr (_, made) ↦ inr (s, first, ap (λ c. c.time) made, ap (λ c. c.cached) made)
    | inl (_, _, kept) ↦ elim (cache_after-Honest earlier) [
      | inl empty ↦ inl (kept ∙ empty)
      | inr (u, among, at_time, same) ↦
          inr (u, later among, ap (λ c. c.time) kept ∙ at_time, ap (λ c. c.cached) kept ∙ same)
    ]
  ]

  -- For a request at least five seconds after the epoch, after any others: the queue that it answers
  -- with is that of its own time, or that of an earlier request less than five seconds before it.
  pub get_diagnostics_lem :
      (s : State) (earlier : List State)
      → queue_cache_ttl ≤ s.clock
      → let answer = (get_diagnostics round s (cache_after earlier)).0 in
        (answer.0 ≡ queue_status round s)
        ⊎ (u : State) × Occurs u earlier
          × (s.clock < u.clock + queue_cache_ttl)
          × (answer.0 ≡ queue_status round u)
  unfolding reset_diagnostics_cache
  get_diagnostics_lem s earlier late = elim (step-cases s (cache_after earlier)) [
    | inr (now, _) ↦ inl now
    | inl (fresh, same, _) ↦ elim (cache_after-Honest earlier) [
      | inl empty ↦
          let time : (cache_after earlier).time ≡ 0 = ap (λ c. c.time) empty in
          ground (arith, fresh, time, late)
      | inr (u, among, at_time, was) ↦ inr (u, among, ground (arith, fresh, at_time), same ∙ was)
    ]
  ]
