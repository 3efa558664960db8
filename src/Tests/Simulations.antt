-- ===== src/Tests/Simulations.antt =====
-- The theorems on the simulation endpoints at concrete data.
use behaviour_sim_api.Base.{
  ℕ, ◌≡◌, ◌≢◌, ◌↔◌, ◌⊎◌, refl, Bool, true, false, ◌&&◌, Option, none, some, List, [], ◌∷◌, ◌++◌,
  map, String, count_where, Sorted,
}
use behaviour_sim_api.Store.Rows.{Text, Uuid, Instant, running, Simulation}
use behaviour_sim_api.Store.State.{State}
use behaviour_sim_api.Store.Action.{Error, crash, ok, err}
use behaviour_sim_api.Concurrency.{get_active_count}
use behaviour_sim_api.Presets.{codes}
use behaviour_sim_api.Usage.Counts.{used}
use behaviour_sim_api.Jobs.{RunRequest}
use behaviour_sim_api.Simulations.Responses.{Principal, accepted}
use behaviour_sim_api.Simulations.Runs.{run_simulation, wants_sync, pending_response}
use behaviour_sim_api.Simulations.Admission.{Charged, Counted, Untouched}
use behaviour_sim_api.Simulations.Submission.{Valid, Admitted, run_simulation-charges}
use behaviour_sim_api.Simulations.Slots.{run_simulation_slots}
use behaviour_sim_api.Simulations.History.{
  HistoryItem, history, history_item, list_simulations, newer, selected, preset_clause,
  status_clause,
}
use behaviour_sim_api.Simulations.Pages.{pages, more_after, list_simulations_pages}
use behaviour_sim_api.Simulations.Access.{
  get_simulation, delete_simulation, simulation_not_found, cannot_delete_running_simulation,
}
use behaviour_sim_api.Simulations.Privacy.{simulations_private}
use behaviour_sim_api.Simulations.Deletion.{Missing, Owns, Gone, usage_after, delete_simulation_lem}
use behaviour_sim_api.Tests.{toy_env, basic, alice, queued, store}
use behaviour_sim_api.Tests.Usage.{store-UsageRows}

abbrev caller : Principal
caller = record { user = alice; authentication_method = "session"; api_key = none; session = none }

abbrev last_run : RunRequest
last_run = record {
  preset = codes "Finance";
  num_interactions = 100;
  seed = some 42;
  profile = none;
  initial_state = none;
}

run_simulation-charges_example :
    let (answer, s') = run_simulation toy_env caller last_run false none store in
    ((Valid toy_env caller last_run false none store basic refl store-UsageRows
        × Admitted toy_env caller last_run false none store basic refl store-UsageRows
        × (true ≡ true))
      × (j : Simulation) × (answer ≡ ok (accepted (pending_response j)))
      × Charged toy_env alice last_run none store basic refl store-UsageRows j s')
    ⊎ ((Valid toy_env caller last_run false none store basic refl store-UsageRows
          × Admitted toy_env caller last_run false none store basic refl store-UsageRows
          × (true ≡ false))
        × (answer ≡ err crash)
        × (s'.simulations ≡ store.simulations)
        × Counted toy_env alice last_run none store basic refl store-UsageRows s')
    ⊎ (¬ (
          Valid toy_env caller last_run false none store basic refl store-UsageRows
          × Admitted toy_env caller last_run false none store basic refl store-UsageRows)
        × (e : Error) × (answer ≡ err e)
        × Untouched toy_env alice last_run none store basic refl store-UsageRows s')
unfolding wants_sync
run_simulation-charges_example =
    run_simulation-charges toy_env caller last_run false none store basic refl store-UsageRows refl

run_simulation_slots_example :
    get_active_count 1 (run_simulation toy_env caller last_run true none store).1.active_counts
    ≡ get_active_count 1 store.active_counts
run_simulation_slots_example = run_simulation_slots toy_env caller last_run true none store 1

abbrev any : Simulation → Bool
any j = true

any_preset : preset_clause none store ≡ (ok any, store)
unfolding preset_clause
any_preset = refl

any_status : status_clause none store ≡ (ok any, store)
unfolding status_clause
any_status = refl

list_simulations_pages_example :
    let runs = history 1 any any store in
    Sorted newer runs
    × ((f : Simulation → Bool)
        → count_where f runs ≡ count_where (λ j. selected 1 any any j && f j) store.simulations)
    × ((n : ℕ)
        → (rest : List HistoryItem) × (map history_item runs
            ≡ pages 20 none none 1 store any any any_preset any_status n ++ rest)
          × ((more_after 20 none none 1 store any any any_preset any_status n ≡ false)
              ↔ (rest ≡ [])))
list_simulations_pages_example =
    list_simulations_pages 20 none none 1 store any any any_preset any_status

-- The same runs of one user, beside a run of another.
abbrev other_run : State
other_run = record store { simulations = record queued { id = 8; user_id = 2 } ∷ queued ∷ [] }

simulations_private_example :
    ((page page_size : ℕ) (preset status_filter : Option Text)
      → (list_simulations page page_size preset status_filter 1 store).0
        ≡ (list_simulations page page_size preset status_filter 1 other_run).0)
    × ((simulation_id : String)
        → ((get_simulation toy_env caller simulation_id store).0
            ≡ (get_simulation toy_env caller simulation_id other_run).0)
          × ((delete_simulation toy_env caller simulation_id store).0
              ≡ (delete_simulation toy_env caller simulation_id other_run).0))
simulations_private_example = simulations_private toy_env caller store other_run refl

delete_simulation_lem_example :
    let q = delete_simulation toy_env caller "7" store in
    (Missing toy_env caller "7" store × (q ≡ (err (simulation_not_found "7"), store)))
    ⊎ ((sim : Simulation) × Owns toy_env caller "7" store sim
        × (((sim.status ≡ running)
              × (q ≡ (err (cannot_delete_running_simulation "7" running), store)))
            ⊎ (sim.status ≢ running)
              × (q.0 ≡ ok tt)
              × Gone toy_env caller "7" store sim.id q.1
              × ((v : Uuid) (p : Instant)
                  → used v p q.1 ≡ usage_after toy_env caller "7" store sim v p)))
delete_simulation_lem_example = delete_simulation_lem toy_env caller "7" store (tt, tt)
