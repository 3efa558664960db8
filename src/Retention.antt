-- ===== src/Retention.antt =====
-- app/services/retention.py: the deletion of old jobs in batches. `locked` tells the rows that other
-- transactions hold, `raises` tells what a batch raises by the number of batches so far, and
-- `elapsed` is the time that the run takes. No other process changes the jobs between the batches.
-- The loop takes fuel: a step for each job that it may delete, and one to stop.
pub mod Batch
pub mod Loop
use behaviour_sim_api.Base.{
  ℕ, zero, suc, ◌+◌, ◌-◌, ◌*◌, Bool, true, false, ◌&&◌, ◌||◌, not, Option, none, some, List, [],
  ◌∷◌, String, ltb, ◌==◌, if◌then◌else◌, some_or, is_some, select_where, count_where, delete_where,
  take, length,
}
use behaviour_sim_api.Store.Rows.{Uuid, Instant, Simulation, completed, failed}
use behaviour_sim_api.Store.State.{State}
use behaviour_sim_api.Store.Action.{Result, ok, err, crash}
use behaviour_sim_api.Metrics.{record_cleanup_run}
use behaviour_sim_api.Jobs.{status_eq}
use behaviour_sim_api.Worker.{order_by_age, seconds}

pub record CleanupResult : Type 0 where
  pub eligible_count : ℕ
  pub deleted_count : ℕ
  pub batch_count : ℕ
  pub duration : ℕ  -- microseconds
  pub cutoff : Instant
  pub dry_run : Bool
  pub success : Bool
  pub error_message : Option String

-- Status in ELIGIBLE_RETENTION_STATUSES, and created_at < cutoff.
unfoldable pub is_expired : Instant → Simulation → Bool
is_expired cutoff j =
    (status_eq j.status completed || status_eq j.status failed) && ltb j.created_at cutoff

-- A day has 86,400 seconds.
unfoldable pub get_retention_cutoff : ℕ → State → Instant
get_retention_cutoff retention_days s = s.clock - seconds (retention_days * 86_400)

unfoldable pub count_eligible_simulations : Instant → State → ℕ
count_eligible_simulations cutoff s = count_where (is_expired cutoff) s.simulations

-- An expired job that no other transaction has locked.
abbrev pub may_delete : (Uuid → Bool) → Instant → Simulation → Bool
may_delete locked cutoff j = is_expired cutoff j && not (locked j.id)

unfoldable pub select_expired : (Uuid → Bool) → Instant → ℕ → State → List Simulation
select_expired locked cutoff batch_size s =
    take batch_size (order_by_age (select_where (may_delete locked cutoff) s.simulations))

-- `Simulation.id.in_(candidate_ids)`
abbrev pub is_in : List Simulation → Simulation → Bool
is_in [] j = false
is_in (k ∷ ks) j = k.id == j.id || is_in ks j

abbrev pub delete_all : List Simulation → State → State
delete_all ids s = record s { simulations = delete_where (is_in ids) s.simulations }

-- The number of rows deleted and of candidates found.
unfoldable pub perform_batch_delete : (Uuid → Bool) → Instant → ℕ → State → (ℕ × ℕ) × State
perform_batch_delete locked cutoff batch_size s =
    let ids = select_expired locked cutoff batch_size s in
    if length ids == 0
    then ((0, 0), s)
    else ((count_where (is_in ids) s.simulations, length ids), delete_all ids s)

-- `deleted_total`, `batch_count`, and the exception that ended the loop.
pub record Tally : Type 0 where
  pub deleted_total : ℕ
  pub batch_count : ℕ
  pub exc : Option String

abbrev pub add_batch : ℕ → Tally → Tally
add_batch deleted t = record t {
  deleted_total = t.deleted_total + deleted;
  batch_count = if ltb 0 deleted then t.batch_count + 1 else t.batch_count;
}

unfoldable pub batch_loop :
    (Uuid → Bool) → (ℕ → Option String) → Instant → ℕ → ℕ → Tally → State → Option (Tally × State)
batch_loop locked raises cutoff batch_size zero t s = none
batch_loop locked raises cutoff batch_size (suc fuel) t s =
    let ((deleted, found), s') = perform_batch_delete locked cutoff batch_size s in
    let rest = batch_loop locked raises cutoff batch_size fuel (add_batch deleted t) s' in
    elim (raises t.batch_count) [
      | some e ↦ some (record t { exc = some e }, s)
      | none ↦ if found == 0 then some (t, s) else rest
    ]

abbrev pub count_run : ℕ → ℕ → Bool → State → State
count_run deleted elapsed success s = record s {
  metrics = record_cleanup_run s.clock deleted elapsed success s.metrics;
}

unfoldable pub delete_expired :
    (Uuid → Bool)
    → (ℕ → Option String)
    → ℕ
    → Instant
    → ℕ
    → ℕ
    → State
    → Option (CleanupResult × State)
delete_expired locked raises elapsed cutoff batch_size fuel s =
    let eligible = count_eligible_simulations cutoff s in
    let looped =
      batch_loop locked raises cutoff batch_size fuel
        (record { deleted_total = 0; batch_count = 0; exc = none }) s in
    if eligible == 0
    then some (
      record {
        eligible_count = 0;
        deleted_count = 0;
        batch_count = 0;
        duration = elapsed;
        cutoff = cutoff;
        dry_run = false;
        success = true;
        error_message = none;
      },
      count_run 0 elapsed true s,
    )
    else elim looped [
      | none ↦ none
      | some (t, s') ↦
          let success = not (is_some t.exc) in
          some (
            record {
              eligible_count = eligible;
              deleted_count = t.deleted_total;
              batch_count = t.batch_count;
              duration = elapsed;
              cutoff = cutoff;
              dry_run = false;
              success = success;
              error_message = t.exc;
            },
            count_run t.deleted_total elapsed success s',
          )
    ]

-- The settings are the values of the two options where the caller gives none.
pub record CleanupRequest : Type 0 where
  pub retention_days : ℕ
  pub batch_size : ℕ
  pub dry_run : Bool
  pub cutoff_override : Option Instant

unfoldable pub cleanup_expired_simulations :
    (Uuid → Bool)
    → (ℕ → Option String)
    → ℕ
    → CleanupRequest
    → ℕ
    → State
    → Option (Result CleanupResult × State)
cleanup_expired_simulations locked raises elapsed r fuel s =
    let cutoff = some_or r.cutoff_override (get_retention_cutoff r.retention_days s) in
    let live = delete_expired locked raises elapsed cutoff r.batch_size fuel s in
    if ltb r.retention_days 1 || ltb r.batch_size 1 || ltb 1000 r.batch_size
    then some (err crash, s)
    else (if r.dry_run
        then some (
          ok (record {
            eligible_count = count_eligible_simulations cutoff s;
            deleted_count = 0;
            batch_count = 0;
            duration = elapsed;
            cutoff = cutoff;
            dry_run = true;
            success = true;
            error_message = none;
          }),
          s,
        )
        else elim live [ none ↦ none | some (result, s') ↦ some (ok result, s') ])
