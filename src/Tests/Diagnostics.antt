-- ===== src/Tests/Diagnostics.antt =====
-- The theorem on the diagnostics at concrete data.
use behaviour_sim_api.Base.{◌+◌, ◌<◌, ◌≡◌, ◌⊎◌, arith, [], ◌∷◌}
use behaviour_sim_api.Store.State.{State}
use behaviour_sim_api.Worker.Order.{Occurs}
use behaviour_sim_api.Diagnostics.{Rounding, queue_status, get_diagnostics, queue_cache_ttl}
use behaviour_sim_api.Diagnostics.Freshness.{cache_after, get_diagnostics_lem}
use behaviour_sim_api.Tests.{store}

abbrev exact : Rounding
exact = record { age = λ n. n; percent = λ m n. m }

-- Two requests within five seconds.
abbrev one : State
one = record store { clock = 5_500_000 }

abbrev two : State
two = record store { clock = 6_000_000; simulations = [] }

get_diagnostics_lem_example :
    let answer = (get_diagnostics exact two (cache_after exact (one ∷ []))).0 in
    (answer.0 ≡ queue_status exact two)
    ⊎ (u : State) × Occurs u (one ∷ [])
      × (6_000_000 < u.clock + queue_cache_ttl)
      × (answer.0 ≡ queue_status exact u)
get_diagnostics_lem_example = get_diagnostics_lem exact two (one ∷ []) (omega arith)
