-- ===== src/Concurrency.antt =====
-- `ConcurrencyLimiter` of app/core/concurrency.py. The lock makes each method one step on the
-- dictionary of the active counts; a user's id is its UUID, as `_normalize_user_id` gives it.
use behaviour_sim_api.Base.{
  [], ℕ, ◌+◌, ◌-◌, ◌≤◌, ◌<◌, ◌≡◌, ◌≢◌, ◌⊎◌, refl, inl, inr, arith, Bool, true, false, some, leb,
  if◌then◌else◌, Bool-cases,
}
use behaviour_sim_api.Dict.{Dict, get, put, pop, get_count, get-put, get-pop, Eq-ℕ}
use behaviour_sim_api.Store.Rows.{Uuid}

abbrev pub ActiveCounts : Type 0
ActiveCounts = Dict Uuid ℕ

unfoldable pub acquire : Uuid → ℕ → ActiveCounts → Bool × ActiveCounts
acquire uid limit active_counts =
    let current = get_count uid active_counts in
    if leb limit current
    then (false, active_counts)
    else (true, put uid (current + 1) active_counts)

unfoldable pub release : Uuid → ActiveCounts → ℕ × ActiveCounts
release uid active_counts =
    let current = get_count uid active_counts in
    if leb current 1
    then (0, pop uid active_counts)
    else (current - 1, put uid (current - 1) active_counts)

unfoldable pub get_active_count : Uuid → ActiveCounts → ℕ
get_active_count uid active_counts = get_count uid active_counts

unfoldable pub reset : ActiveCounts → ActiveCounts
reset active_counts = []

-- What the callers do to the limiter.
pub data Call : Type 0 where
  acquires : Uuid → ℕ → Call
  releases : Uuid → Call

unfoldable pub call : Call → ActiveCounts → ActiveCounts
unfolding acquire release
call (acquires uid limit) a = (acquire uid limit a).1
call (releases uid) a = (release uid a).1

-- Every entry counts one slot at least: an empty entry is removed.
abbrev pub NoZero : ActiveCounts → Type 0
NoZero a = (uid : Uuid) → get uid a ≢ some 0

-- Both calls keep the dictionary free of empty entries.
pub call-NoZero : (c : Call) (a : ActiveCounts) → NoZero a → NoZero (call c a)
unfolding call acquire release
call-NoZero (acquires uid limit) a h j e = elim (Bool-cases (leb limit (get_count uid a))) [
  | inl full ↦ h j (ground (arith, full, e))
  | inr free ↦ ground (arith, free, h j, e, get-put uid j (get_count uid a + 1) a)
]
call-NoZero (releases uid) a h j e =
    ground (arith, h j, e, get-pop uid j a, get-put uid j (get_count uid a - 1) a)

-- An acquired slot is one more for its user, within the limit; a refused one changes nothing, and is
-- refused only at the limit. No other user's count changes.
pub acquire_lem :
    (uid : Uuid) (limit : ℕ) (a : ActiveCounts)
    → let (granted, b) = acquire uid limit a in
      ((granted ≡ true)
          × (get_active_count uid b ≡ get_active_count uid a + 1)
          × (get_active_count uid b ≤ limit)
        ⊎ (granted ≡ false) × (b ≡ a) × (limit ≤ get_active_count uid a))
      × ((v : Uuid) → v ≢ uid → get_active_count v b ≡ get_active_count v a)
unfolding acquire get_active_count
acquire_lem uid limit a = elim (Bool-cases (leb limit (get_count uid a))) [
  | inl full ↦ rw full (inr (refl, refl, ground arith), λ v d. refl)
  | inr free ↦ rw free (
    inl (
      refl,
      ground (arith, get-put uid uid (get_count uid a + 1) a),
      ground (arith, get-put uid uid (get_count uid a + 1) a),
    ),
    λ v d. ground (arith, d, get-put uid v (get_count uid a + 1) a),
  )
]

-- Releasing an acquired slot restores every user's count.
pub release-acquire :
    (uid : Uuid) (limit : ℕ) (a : ActiveCounts)
    → get_active_count uid a < limit
    → (v : Uuid) → get_active_count v (release uid (acquire uid limit a).1).1 ≡ get_active_count v a
unfolding acquire release get_active_count
release-acquire uid limit a free v =
    let b = put uid (get_count uid a + 1) a in
    ground (
      arith,
      get-put uid uid (get_count uid a + 1) a,
      get-put uid v (get_count uid a + 1) a,
      get-put uid v (get_count uid b - 1) b,
      get-pop uid v b,
    )
