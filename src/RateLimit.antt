-- ===== src/RateLimit.antt =====
-- `InMemoryRateLimiter` of app/core/rate_limit.py. `now` is the reading of `time.time()` in
-- microseconds; the lock makes each call one step. A refusal reads the oldest accepted call, which
-- raises where there is none, for a limit of 0: the result is `none` then.
pub mod Window
pub mod Sweep
use behaviour_sim_api.Base.{
  ℕ, ◌+◌, ◌-◌, ◌/◌, max, Bool, true, false, not, Option, none, some, List, [], ◌∷◌, ◌++◌, String,
  ltb, leb, if◌then◌else◌, some_or, select_where, count_where, delete_where, length,
}
use behaviour_sim_api.Dict.{Dict, get, put, Eq-String}
use behaviour_sim_api.Store.Rows.{Instant}
use behaviour_sim_api.Worker.{seconds}

pub record RateLimiter : Type 0 where
  pub records : Dict String (List Instant)
  pub sweep_counter : ℕ

-- `ts > window_start`
abbrev pub is_live : Instant → ℕ → Instant → Bool
is_live now window_seconds ts = ltb now (ts + seconds window_seconds)

-- `timestamps[-1]`
abbrev pub last : List Instant → Option Instant
last [] = none
last (t ∷ []) = some t
last (t ∷ u ∷ ts) = last (u ∷ ts)

-- `not timestamps or timestamps[-1] <= window_start`
unfoldable pub is_dead : Instant → ℕ → List Instant → Bool
is_dead now window_seconds timestamps = elim (last timestamps) [
  | none ↦ true
  | some ts ↦ not (is_live now window_seconds ts)
]

-- The keys that are dead are popped.
abbrev pub drop_dead : Instant → ℕ → Dict String (List Instant) → Dict String (List Instant)
drop_dead now window_seconds = delete_where (λ e. is_dead now window_seconds e.1)

-- Each hundredth call sweeps.
unfoldable pub sweep : Instant → ℕ → RateLimiter → RateLimiter
sweep now window_seconds l =
    if leb 100 (l.sweep_counter + 1)
    then record { records = drop_dead now window_seconds l.records; sweep_counter = 0 }
    else record { records = l.records; sweep_counter = l.sweep_counter + 1 }

abbrev pub timestamps_of : String → RateLimiter → List Instant
timestamps_of key l = some_or (get key l.records) []

abbrev pub keep : String → List Instant → RateLimiter → RateLimiter
keep key timestamps l = record l { records = put key timestamps l.records }

-- `max(1, int(oldest + window_seconds - now) + 1)`
abbrev pub retry_after : Instant → ℕ → Instant → ℕ
retry_after now window_seconds oldest =
    max 1 ((oldest + seconds window_seconds - now) / 1_000_000 + 1)

unfoldable pub decide : ℕ → ℕ → Instant → List Instant → Option (Bool × ℕ)
decide limit window_seconds now [] = if leb limit 0 then none else some (true, 0)
decide limit window_seconds now (oldest ∷ ts) =
    if leb limit (length (oldest ∷ ts))
    then some (false, retry_after now window_seconds oldest)
    else some (true, 0)

-- The timestamps that a call leaves for its key.
unfoldable pub respond :
    String
    → Instant
    → List Instant
    → RateLimiter
    → Option (Bool × ℕ)
    → Option (Bool × ℕ) × RateLimiter
respond key now valid l none = (none, l)
respond key now valid l (some (true, r)) = (some (true, r), keep key (valid ++ now ∷ []) l)
respond key now valid l (some (false, r)) = (some (false, r), keep key valid l)

-- The answer, and the limiter after the call.
unfoldable pub check_rate_limit :
    String → ℕ → ℕ → Instant → RateLimiter → Option (Bool × ℕ) × RateLimiter
check_rate_limit key limit window_seconds now l =
    let swept = sweep now window_seconds l in
    let valid = select_where (is_live now window_seconds) (timestamps_of key swept) in
    respond key now valid swept (decide limit window_seconds now valid)

unfoldable pub prune_expired : ℕ → Instant → RateLimiter → ℕ × RateLimiter
prune_expired window_seconds now l = (
  count_where (λ e. is_dead now window_seconds e.1) l.records,
  record l { records = drop_dead now window_seconds l.records },
)

unfoldable pub reset : RateLimiter
reset = record { records = []; sweep_counter = 0 }
