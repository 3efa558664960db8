-- ===== src/Simulations/Pages.antt =====
-- The pages of `list_simulations` of app/api/v1/simulations.py make up the history.
use behaviour_sim_api.Base.{
  ℕ, zero, suc, ◌+◌, ◌-◌, ◌*◌, ◌≡◌, ◌↔◌, ◌∙◌, ap, sym, arith, Bool, true, false, ◌&&◌, Option, List,
  [], ◌++◌, map, take, drop, length, take-add, take-drop, length-drop, length-eq_zero, length-map,
  map-take, map-drop, select_where, count_where, count_where-and, length-select_where, Sorted,
  sort_by-Sorted, length-sort_by, count_where-sort_by,
}
use behaviour_sim_api.Store.Rows.{Text, Uuid, Simulation}
use behaviour_sim_api.Store.State.{State}
use behaviour_sim_api.Store.Action.{Result, ok, err, bind_ok, gets, ◌>>=◌}
use behaviour_sim_api.Simulations.History.{
  HistoryItem, HistoryResponse, history_item, preset_clause, status_clause, selected, newer,
  history, history_page, list_simulations,
}

-- What the endpoint answers with, and whether it names a next page.
abbrev pub items_of : Result HistoryResponse → List HistoryItem
items_of (ok r) = r.items
items_of (err e) = []

abbrev pub names_next : Result HistoryResponse → Bool
names_next (ok r) = r.has_next
names_next (err e) = false

newer_total : (j k : Simulation) → newer j k ≡ false → newer k j ≡ true
newer_total j k h = ground arith

newer_trans : (i j k : Simulation) → newer i j ≡ true → newer j k ≡ true → newer i k ≡ true
newer_trans i j k a b = ground arith

module _ (page_size : ℕ) (preset status_filter : Option Text) (user_id : Uuid) (s : State)
    (p q : Simulation → Bool) (known_preset : preset_clause preset s ≡ (ok p, s))
    (known_status : status_clause status_filter s ≡ (ok q, s)) where
  abbrev runs : List Simulation
  runs = history user_id p q s

  abbrev items : List HistoryItem
  items = map history_item runs

  list_simulations_lem :
      (page : ℕ)
      → list_simulations page page_size preset status_filter user_id s
        ≡ (ok (history_page page page_size user_id p q s), s)
  unfolding list_simulations
  list_simulations_lem page =
      bind_ok (preset_clause preset)
        (λ p'.
          status_clause status_filter >>= λ q'. gets (history_page page page_size user_id p' q'))
        s known_preset
      ∙ bind_ok (status_clause status_filter)
          (λ q'. gets (history_page page page_size user_id p q')) s known_status

  abbrev pub items_at : ℕ → List HistoryItem
  items_at page = items_of (list_simulations page page_size preset status_filter user_id s).0

  abbrev pub more_after : ℕ → Bool
  more_after page = names_next (list_simulations page page_size preset status_filter user_id s).0

  -- The pages from 1 to n, one after the other.
  abbrev pub pages : ℕ → List HistoryItem
  pages zero = []
  pages (suc n) = pages n ++ items_at (suc n)

  pages-take : (n : ℕ) → pages n ≡ take (n * page_size) (map history_item runs)
  unfolding history_page
  pages-take zero =
      let none_yet : 0 ≡ 0 * page_size = omega arith in
      ap (λ k. take k (map history_item runs)) none_yet
  pages-take (suc n) =
      let start : (suc n - 1) * page_size ≡ n * page_size = ground arith in
      let end : n * page_size + page_size ≡ suc n * page_size = grind arith in
      let page : items_at (suc n) ≡ take page_size (drop (n * page_size) items) =
        ap (λ a. items_of a.0) (list_simulations_lem (suc n))
        ∙ rw start (
            map-take history_item page_size (drop (n * page_size) runs)
            ∙ ap (take page_size) (map-drop history_item (n * page_size) runs)) in
      rw (pages-take n, page)
        (sym (take-add (n * page_size) page_size items) ∙ ap (λ k. take k items) end)

  total_lem : count_where (selected user_id p q) s.simulations ≡ length (map history_item runs)
  unfolding history
  total_lem = sym (
      length-map history_item runs
      ∙ length-sort_by newer (select_where (selected user_id p q) s.simulations)
      ∙ length-select_where (selected user_id p q) s.simulations)

  last_page :
      (n : ℕ)
      → ((history_page n page_size user_id p q s).has_next ≡ false)
        ↔ (drop (n * page_size) items ≡ [])
  unfolding history_page
  last_page n =
      let left = drop (n * page_size) items in
      let size = length-drop (n * page_size) items in
      (
        λ h. length-eq_zero left (ground (arith, h, size, total_lem)),
        λ h. let empty : length left ≡ 0 = ap length h in ground (arith, empty, size, total_lem),
      )

  -- Where both filters are recognised: the history, which is in the order of the newest creation and
  -- holds each selected row of the caller as often as the table does, is what the pages from 1 to n
  -- answer with, followed by a rest, which is empty exactly if page n names no next one.
  pub list_simulations_pages :
      Sorted newer runs
      × ((f : Simulation → Bool)
          → count_where f runs ≡ count_where (λ j. selected user_id p q j && f j) s.simulations)
      × ((n : ℕ)
          → (rest : List HistoryItem) × (map history_item runs ≡ pages n ++ rest)
            × ((more_after n ≡ false) ↔ (rest ≡ [])))
  unfolding history history_page
  list_simulations_pages = (
    sort_by-Sorted newer newer_total newer_trans
        (select_where (selected user_id p q) s.simulations),
    λ f.
        count_where-sort_by newer f (select_where (selected user_id p q) s.simulations)
        ∙ sym (count_where-and (selected user_id p q) f s.simulations),
    λ n. (
      drop (n * page_size) items,
      sym (take-drop (n * page_size) items)
          ∙ ap (λ xs. xs ++ drop (n * page_size) items) (sym (pages-take n)),
      rw (ap (λ a. names_next a.0) (list_simulations_lem n)) (last_page n),
    ),
  )
