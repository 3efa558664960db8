-- ===== src/Simulations/Privacy.antt =====
-- What the endpoints of app/api/v1/simulations.py answer says nothing of other users' runs.
use behaviour_sim_api.Base.{
  ℕ, ◌≡◌, ◌∙◌, ap, sym, refl, inl, inr, arith, Bool, ◌&&◌, Option, none, some, List, String, ◌==◌,
  Option-cases, find_first, find_first-and, select_where, select_where-and, count_where,
  count_where-and,
}
use behaviour_sim_api.Dict.{get, Eq-Text}
use behaviour_sim_api.Store.Rows.{Text, Uuid, Simulation}
use behaviour_sim_api.Store.State.{State}
use behaviour_sim_api.Store.Env.{Env}
use behaviour_sim_api.Store.Action.{Action, ok, Result-cases, bind_ok, bind_err, ◌>>=◌, gets, pure}
use behaviour_sim_api.Presets.{lower, strip}
use behaviour_sim_api.Usage.{refund_usage, record_usage_result, add_event}
use behaviour_sim_api.Simulations.Responses.{Principal}
use behaviour_sim_api.Simulations.History.{
  preset_clause, status_clause, status_names, selected, history, history_page, list_simulations,
}
use behaviour_sim_api.Simulations.Access.{
  owned_by, find_owned, get_simulation, delete_simulation, delete_found, detail, refund_pending,
}

-- The runs of a user.
abbrev pub own : Uuid → State → List Simulation
own user_id s = select_where (λ j. j.user_id == user_id) s.simulations

-- Code whose answer does not depend on the state, and that leaves it as it is.
abbrev IsConstant : {A : Type 0} → Action A → Type 0
IsConstant m = (s t : State) → m s ≡ ((m t).0, s)

preset_clause-IsConstant : (preset : Option Text) → IsConstant (preset_clause preset)
unfolding preset_clause
preset_clause-IsConstant none s t = refl
preset_clause-IsConstant (some preset) s t = ground arith

status_clause-IsConstant : (status_filter : Option Text) → IsConstant (status_clause status_filter)
unfolding status_clause
status_clause-IsConstant none s t = refl
status_clause-IsConstant (some status_filter) s t =
    elim (Option-cases (get (lower (strip status_filter)) status_names)) [
      | inl e ↦ rw (status_clause, e) refl
      | inr (status, e) ↦ rw (status_clause, e) refl
    ]

module _ (user_id : Uuid) (s t : State) (same : own user_id s ≡ own user_id t) where
  history_page-own :
      (page page_size : ℕ) (p q : Simulation → Bool)
      → history_page page page_size user_id p q s ≡ history_page page page_size user_id p q t
  unfolding history_page history
  history_page-own page page_size p q =
      let mine = λ (j : Simulation). j.user_id == user_id in
      let rest = λ (j : Simulation). p j && q j in
      let rows : select_where (selected user_id p q) s.simulations
          ≡ select_where (selected user_id p q) t.simulations =
        select_where-and mine rest s.simulations
        ∙ ap (select_where rest) same
        ∙ sym (select_where-and mine rest t.simulations) in
      let total : count_where (selected user_id p q) s.simulations
          ≡ count_where (selected user_id p q) t.simulations =
        count_where-and mine rest s.simulations
        ∙ ap (count_where rest) same
        ∙ sym (count_where-and mine rest t.simulations) in
      rw (rows, total) refl

  find_first-own :
      (id : Uuid)
      → find_first (owned_by user_id id) s.simulations
        ≡ find_first (owned_by user_id id) t.simulations
  find_first-own id =
      let mine = λ (j : Simulation). j.user_id == user_id in
      find_first-and mine (λ j. j.id == id) s.simulations
      ∙ ap (find_first (λ j. j.id == id)) same
      ∙ sym (find_first-and mine (λ j. j.id == id) t.simulations)

  find_owned-own :
      (env : Env) (simulation_id : String)
      → (find_owned env user_id simulation_id s).0 ≡ (find_owned env user_id simulation_id t).0
  unfolding find_owned
  find_owned-own env simulation_id = elim (Option-cases (env.uuid_of simulation_id)) [
    | inl e ↦ ground (arith, e)
    | inr (id, e) ↦ ground (arith, e, find_first-own id)
  ]

  find_owned-same :
      (env : Env) (simulation_id : String) → (find_owned env user_id simulation_id s).1 ≡ s
  unfolding find_owned
  find_owned-same env simulation_id = ground arith

-- The answer of the deletion of a row that was found depends on that row only.
delete_found-IsConstant :
    (env : Env) (principal : Principal) (simulation_id : String) (sim : Simulation) (s t : State)
    → (delete_found env principal simulation_id sim s).0
      ≡ (delete_found env principal simulation_id sim t).0
unfolding delete_found refund_pending refund_usage record_usage_result add_event
delete_found-IsConstant env principal simulation_id sim s t = ground arith

-- Answers that are found by the same lookup, and made of what it finds, are the same.
same_answer :
    {A B : Type 0} (m : Action A) (f : A → Action B) (s t : State)
    → (m s).0 ≡ (m t).0
    → ((a : A) → (f a (m s).1).0 ≡ (f a (m t).1).0)
    → ((m >>= f) s).0 ≡ ((m >>= f) t).0
same_answer m f s t found made = elim (Result-cases (m s).0) [
  | inl (a, e) ↦
      rw (bind_ok m f s (λ i. (e i, (m s).1)), bind_ok m f t (λ i. ((sym found ∙ e) i, (m t).1)))
        (made a)
  | inr (x, e) ↦
      rw (bind_err m f s (λ i. (e i, (m s).1)), bind_err m f t (λ i. ((sym found ∙ e) i, (m t).1)))
]

constant_answer :
    {A B : Type 0} (m : Action A) (f : A → Action B) (s t : State)
    → IsConstant m
    → ((a : A) → (f a s).0 ≡ (f a t).0)
    → ((m >>= f) s).0 ≡ ((m >>= f) t).0
constant_answer m f s t c made =
    same_answer m f s t (ap (λ r. r.0) (c s t))
      λ a. rw (ap (λ r. r.1) (c s s), ap (λ r. r.1) (c t t)) (made a)

-- Two states in which the caller has the same runs: whatever runs others have, the caller gets the
-- same answers to a listing, to a lookup and to a deletion.
pub simulations_private :
    (env : Env) (principal : Principal) (s t : State)
    → own principal.user.id s ≡ own principal.user.id t
    → ((page page_size : ℕ) (preset status_filter : Option Text)
        → (list_simulations page page_size preset status_filter principal.user.id s).0
          ≡ (list_simulations page page_size preset status_filter principal.user.id t).0)
      × ((simulation_id : String)
          → ((get_simulation env principal simulation_id s).0
              ≡ (get_simulation env principal simulation_id t).0)
            × ((delete_simulation env principal simulation_id s).0
                ≡ (delete_simulation env principal simulation_id t).0))
unfolding get_simulation delete_simulation list_simulations
simulations_private env principal s t same =
    let uid = principal.user.id in
    (
      λ page page_size preset status_filter.
          constant_answer (preset_clause preset)
            (λ p. status_clause status_filter >>= λ q. gets (history_page page page_size uid p q)) s
            t (preset_clause-IsConstant preset)
            (λ p.
              constant_answer (status_clause status_filter)
                (λ q. gets (history_page page page_size uid p q)) s t
                (status_clause-IsConstant status_filter)
                (λ q. ap ok (history_page-own uid s t same page page_size p q))),
      λ id. (
        same_answer (find_owned env uid id) (λ sim. pure (detail sim)) s t
            (find_owned-own uid s t same env id) (λ j. refl),
        same_answer (find_owned env uid id) (delete_found env principal id) s t
            (find_owned-own uid s t same env id)
            (λ j. delete_found-IsConstant env principal id j _ _),
      ),
    )
