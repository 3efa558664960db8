-- ===== src/Jobs/Lifecycle.antt =====
-- The lifecycle of a job (`VALID_TRANSITIONS` of app/services/simulation_job.py) as a relation, and
-- the operations that follow it.
use behaviour_sim_api.Base.{
  ◌≡◌, ◌≢◌, ◌⊎◌, ◌∙◌, refl, inl, inr, arith, Bool, true, false, some, ◌==◌, Bool-cases,
  Option-cases, find_first-holds, find_first-update_where, UniqueKeys, UniqueKeys-update_where,
  changed,
}
use behaviour_sim_api.Store.Rows.{
  Uuid, Instant, Status, pending, running, completed, failed, Simulation,
}
use behaviour_sim_api.Store.State.{State}
use behaviour_sim_api.Store.Action.{ok, err, crash}
use behaviour_sim_api.Jobs.{
  can_transition, status_eq, save, get_job, Outcome, transition_job_status, commit_transition,
  apply_transition, invalid_state_transition,
}

infix 40 ◌⟶*◌
-- What a job can become by transitions that the table allows.
pub data ◌⟶*◌ : Status → Status → Type 0 where
  here : {a : Status} → a ⟶* a
  then : {a b c : Status} → can_transition a b ≡ true → b ⟶* c → a ⟶* c

pub ⟶*_trans : {a b c : Status} → a ⟶* b → b ⟶* c → a ⟶* c
⟶*_trans here k = k
⟶*_trans (then t h) k = then t (⟶*_trans h k)

pub ⟶*_one : {a b : Status} → can_transition a b ≡ true → a ⟶* b
⟶*_one t = then t here

abbrev pub IsTerminal : Status → Type 0
IsTerminal a = (a ≡ completed) ⊎ (a ≡ failed)

no_transition : (a b : Status) → IsTerminal a → can_transition a b ≡ false
no_transition a b h = ground arith

-- Nothing leads out of `completed` or `failed`.
pub ⟶*-IsTerminal : {a b : Status} → a ⟶* b → IsTerminal a → b ≡ a
⟶*-IsTerminal here h = refl
⟶*-IsTerminal (then {a = a} {b = b} t r) h = cc (no_transition a b h)

abbrev pub UniqueJobs : State → Type 0
UniqueJobs s = UniqueKeys (λ j. j.id) s.simulations

pub get_job-id : (id : Uuid) (s : State) (j : Simulation) → get_job id s ≡ some j → j.id ≡ id
get_job-id id s j e = ground (arith, find_first-holds (λ k. k.id == id) s.simulations j e)

-- A write to the row of `j`.
pub get_job-save :
    (id : Uuid) (j : Simulation) (s : State)
    → get_job id (save j s) ≡ changed (λ k. k.id == j.id) (λ _. j) (get_job id s)
get_job-save id j s =
    find_first-update_where (λ k. k.id == id) (λ k. k.id == j.id) (λ _. j) s.simulations
      (λ a e. ground arith)

pub get_job-save_other :
    (id : Uuid) (j : Simulation) (s : State) → id ≢ j.id → get_job id (save j s) ≡ get_job id s
get_job-save_other id j s d = get_job-save id j s ∙ elim (Option-cases (get_job id s)) [
  | inl e ↦ rw e
  | inr (i, e) ↦ rw e (ground (arith, d, get_job-id id s i e))
]

pub get_job-save_same :
    (j k : Simulation) (s : State) → get_job k.id s ≡ some j → get_job k.id (save k s) ≡ some k
get_job-save_same j k s e = rw (get_job-save k.id k s, e) (ground (arith, get_job-id k.id s j e))

pub save-UniqueJobs : (j : Simulation) (s : State) → UniqueJobs s → UniqueJobs (save j s)
save-UniqueJobs j s u =
    UniqueKeys-update_where (λ k. k.id) (λ k. k.id == j.id) (λ _. j) s.simulations
      (λ a e. ground arith) u

-- No job is lost, and each has moved along the table of transitions, if at all.
pub record Follows (s s' : State) : Type 0 where
  pub at :
      (id : Uuid) (j : Simulation)
      → get_job id s ≡ some j
      → (j' : Simulation) × (get_job id s' ≡ some j') × (j.status ⟶* j'.status)
  pub unique : UniqueJobs s → UniqueJobs s'

-- The jobs are the same.
pub Follows-same : (s s' : State) → s'.simulations ≡ s.simulations → Follows s s'
Follows-same s s' e = record { at = λ id j h. (j, rw e h, here); unique = λ u. rw e u }

pub Follows-trans : {s t u : State} → Follows s t → Follows t u → Follows s u
Follows-trans f g = record {
  at = λ id j h.
      let (k, hk, r) = f.at id j h in let (l, hl, r') = g.at id k hk in (l, hl, ⟶*_trans r r');
  unique = λ u. g.unique (f.unique u);
}

-- The row of `j` is written over by `k`, which a transition allows.
pub Follows-save :
    (j k : Simulation) (s : State)
    → get_job k.id s ≡ some j
    → j.status ⟶* k.status
    → Follows s (save k s)
Follows-save j k s e r = record {
  at = λ id i h. elim (Bool-cases (id == k.id)) [
    | inl same ↦
        let ids : id ≡ k.id = ground arith in
        let same_row : i ≡ j = ground arith in
        (k, rw (get_job-save id k s, h) (ground (arith, get_job-id id s i h)), rw same_row r)
    | inr other ↦ (i, rw (get_job-save id k s, h) (ground (arith, get_job-id id s i h)), here)
  ];
  unique = save-UniqueJobs k s;
}

status_eq→≡ : (a b : Status) → status_eq a b ≡ true → a ≡ b
status_eq→≡ a b h = ground arith

pub apply_transition_lem :
    (now : Instant) (to : Status) (o : Outcome) (job : Simulation)
    → ((apply_transition now to o job).status ≡ to) × ((apply_transition now to o job).id ≡ job.id)
unfolding apply_transition
apply_transition_lem now pending o job = (refl, refl)
apply_transition_lem now running o job = (refl, refl)
apply_transition_lem now completed o job = (refl, refl)
apply_transition_lem now failed o job = (refl, refl)

apply_transition-updated :
    (now : Instant) (to : Status) (o : Outcome) (job : Simulation)
    → (apply_transition now to o job).updated_at ≡ now
unfolding apply_transition
apply_transition-updated now pending o job = refl
apply_transition-updated now running o job = refl
apply_transition-updated now completed o job = refl
apply_transition-updated now failed o job = refl

-- The statuses that a job may go to from each.
abbrev pub Allowed : Status → Status → Type 0
Allowed a b =
    (a ≡ pending) × ((b ≡ running) ⊎ (b ≡ failed))
    ⊎ (a ≡ running) × ((b ≡ completed) ⊎ (b ≡ failed))

can_transition-Allowed : (a b : Status) → can_transition a b ≡ true → Allowed a b
can_transition-Allowed a b e = ground arith

Allowed-can_transition : (a b : Status) → can_transition a b ≡ false → ¬ Allowed a b
Allowed-can_transition a b e allowed = ground arith

status_eq→≢ : (a b : Status) → status_eq a b ≡ false → a ≢ b
status_eq→≢ a b e same = ground arith

-- A transition to the status that the job has returns the job and changes nothing. Any other goes
-- from pending to running or failed, or from running to completed or failed: where the commit
-- succeeds, the job is returned with the target status and the time of the change, and written to its
-- row; where it fails, an exception other than the service's own errors is raised and nothing changes.
-- A transition that is none of these raises invalid_state_transition and changes nothing.
pub transition_job_status_lem :
    (commits : Bool) (job : Simulation) (to : Status) (o : Outcome) (s : State)
    → let (r, s') = transition_job_status commits job to o s in
      (job.status ≡ to) × (r ≡ ok job) × (s' ≡ s)
      ⊎ (Allowed job.status to × (commits ≡ true))
        × ((job' : Simulation) × (r ≡ ok job')
            × (job'.status ≡ to)
            × (job'.id ≡ job.id)
            × (job'.updated_at ≡ s.clock)
            × (s' ≡ save job' s))
      ⊎ (Allowed job.status to × (commits ≡ false)) × (r ≡ err crash) × (s' ≡ s)
      ⊎ ((job.status ≢ to) × ¬ Allowed job.status to)
        × (r ≡ err (invalid_state_transition job.status to))
        × (s' ≡ s)
unfolding transition_job_status commit_transition
transition_job_status_lem commits job to o s = elim (Bool-cases (status_eq job.status to)) [
  | inl same ↦ rw same (inl (status_eq→≡ job.status to same, refl, refl))
  | inr other ↦ elim (Bool-cases (can_transition job.status to)) [
    | inr no_way ↦
        rw (other, no_way)
          (inr (
            inr (
              inr (
                (status_eq→≢ job.status to other, Allowed-can_transition job.status to no_way),
                refl,
                refl,
              ))))
    | inl allowed ↦
        let way = can_transition-Allowed job.status to allowed in
        elim (Bool-cases commits) [
          | inl done ↦
              let (st, ids) = apply_transition_lem s.clock to o job in
              rw (other, allowed, done)
                (inr (
                  inl (
                    (way, refl),
                    (
                      apply_transition s.clock to o job,
                      refl,
                      st,
                      ids,
                      apply_transition-updated s.clock to o job,
                      refl,
                    ),
                  )))
          | inr lost ↦ rw (other, allowed, lost) (inr (inr (inl ((way, refl), refl, refl))))
        ]
  ]
]
