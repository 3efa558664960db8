-- ===== src/RateLimit/Sweep.antt =====
-- The dictionary of the rate limiter and its sweep: app/core/rate_limit.py.
use behaviour_sim_api.Base.{
  ℕ, ◌≤◌, ◌≡◌, arith, Bool, true, false, none, some, List, [], ◌∷◌, ◌++◌, String, refl,
  if◌then◌else◌, select_where, delete_where, count_where, All, Bool-cases, inl, inr,
}
use behaviour_sim_api.Dict.{Dict, get, put, Eq-String, ◌==◌}
use behaviour_sim_api.Store.Rows.{Instant}
use behaviour_sim_api.RateLimit.{is_live, is_dead}

-- No key occurs twice.
abbrev pub Distinct : Dict String (List Instant) → Type 0
Distinct [] = Unit
Distinct ((k, v) ∷ d) = All (λ e. (e.0 == k) ≡ false) d × Distinct d

get-none :
    (k : String) (d : Dict String (List Instant)) → All (λ e. (e.0 == k) ≡ false) d → get k d ≡ none
get-none k [] h = refl
get-none k ((j, v) ∷ d) h = rw (h.0) (get-none k d h.1)

delete-All :
    (k : String) (f : List Instant → Bool) (d : Dict String (List Instant))
    → All (λ e. (e.0 == k) ≡ false) d
    → All (λ e. (e.0 == k) ≡ false) (delete_where (λ e. f e.1) d)
delete-All k f [] h = tt
delete-All k f ((j, v) ∷ d) h = elim (Bool-cases (f v)) [
  | inl t ↦ rw t (delete-All k f d h.1)
  | inr t ↦ rw t (h.0, delete-All k f d h.1)
]

pub delete-Distinct :
    (f : List Instant → Bool) (d : Dict String (List Instant))
    → Distinct d
    → Distinct (delete_where (λ e. f e.1) d)
delete-Distinct f [] h = tt
delete-Distinct f ((k, v) ∷ d) h = elim (Bool-cases (f v)) [
  | inl t ↦ rw t (delete-Distinct f d h.1)
  | inr t ↦ rw t (delete-All k f d h.0, delete-Distinct f d h.1)
]

put-All :
    (k j : String) (v : List Instant) (d : Dict String (List Instant))
    → (j == k) ≡ false
    → All (λ e. (e.0 == k) ≡ false) d
    → All (λ e. (e.0 == k) ≡ false) (put j v d)
put-All k j v [] n h = (n, tt)
put-All k j v ((i, w) ∷ d) n h = elim (Bool-cases (i == j)) [
  | inl t ↦ rw t (n, h.1)
  | inr t ↦ rw t (h.0, put-All k j v d n h.1)
]

pub put-Distinct :
    (k : String) (v : List Instant) (d : Dict String (List Instant))
    → Distinct d
    → Distinct (put k v d)
put-Distinct k v [] h = (tt, tt)
put-Distinct k v ((j, w) ∷ d) h = elim (Bool-cases (j == k)) [
  | inl t ↦ rw t (let same : j ≡ k = (Eq-String.beq_iff j k).0 t in rw same at (h.0), h.1)
  | inr t ↦ rw t (
    put-All j k v d (ground (arith, t, Eq-String.beq_iff j k, Eq-String.beq_iff k j)) h.0,
    put-Distinct k v d h.1,
  )
]

-- What a key has after a sweep.
pub get-delete_where :
    (f : List Instant → Bool) (k : String) (d : Dict String (List Instant))
    → Distinct d
    → get k (delete_where (λ e. f e.1) d)
      ≡ elim (get k d) [ none ↦ none | some v ↦ if f v then none else some v ]
get-delete_where f k [] h = refl
get-delete_where f k ((j, v) ∷ d) h = elim (Bool-cases (j == k)) [
  | inl t ↦
      let same : j ≡ k = (Eq-String.beq_iff j k).0 t in
      let gone = get-none k (delete_where (λ e. f e.1) d) (delete-All k f d (rw same at (h.0))) in
      elim (Bool-cases (f v)) [ inl dead ↦ rw (t, dead) gone | inr live ↦ rw (t, live, t) refl ]
  | inr t ↦
      let rest = get-delete_where f k d h.1 in
      elim (Bool-cases (f v)) [ inl dead ↦ rw (t, dead) rest | inr live ↦ rw (t, live, t) rest ]
]

-- In the order of time.
abbrev pub Ascending : List Instant → Type 0
Ascending [] = Unit
Ascending (t ∷ ts) = All (λ u. t ≤ u) ts × Ascending ts

pub select_where-All_of :
    (P : Instant → Type 0) (p : Instant → Bool) (ts : List Instant)
    → All P ts
    → All P (select_where p ts)
select_where-All_of P p [] h = tt
select_where-All_of P p (t ∷ ts) h = elim (Bool-cases (p t)) [
  | inl e ↦ rw e (h.0, select_where-All_of P p ts h.1)
  | inr e ↦ rw e (select_where-All_of P p ts h.1)
]

pub select_where-Ascending :
    (p : Instant → Bool) (ts : List Instant) → Ascending ts → Ascending (select_where p ts)
select_where-Ascending p [] h = tt
select_where-Ascending p (t ∷ ts) h = elim (Bool-cases (p t)) [
  | inl e ↦ rw e (select_where-All_of _ p ts h.0, select_where-Ascending p ts h.1)
  | inr e ↦ rw e (select_where-Ascending p ts h.1)
]

pub append-All :
    (P : Instant → Type 0) (ts : List Instant) (u : Instant) → All P ts → P u → All P (ts ++ u ∷ [])
append-All P [] u h p = (p, tt)
append-All P (t ∷ ts) u h p = (h.0, append-All P ts u h.1 p)

pub append-Ascending :
    (ts : List Instant) (u : Instant)
    → Ascending ts
    → All (λ t. t ≤ u) ts
    → Ascending (ts ++ u ∷ [])
append-Ascending [] u h p = (tt, tt)
append-Ascending (t ∷ ts) u h p = (append-All _ ts u h.0 p.0, append-Ascending ts u h.1 p.1)

-- A dead list counts nothing then or later.
pub is_dead-count :
    (now later : Instant) (window_seconds : ℕ) (ts : List Instant)
    → Ascending ts
    → is_dead now window_seconds ts ≡ true
    → now ≤ later
    → count_where (is_live later window_seconds) ts ≡ 0
unfolding is_dead
is_dead-count now later w [] h d l = refl
is_dead-count now later w (t ∷ []) h d l = ground arith
is_dead-count now later w (t ∷ u ∷ ts) h d l =
    let rest = is_dead-count now later w (u ∷ ts) h.1 d l in ground (arith, rest, h.0.0)

-- What is live later is live now, so that the eviction loses none of it.
pub count-evicted :
    (now later : Instant) (window_seconds : ℕ) (ts : List Instant)
    → now ≤ later
    → count_where (is_live later window_seconds) (select_where (is_live now window_seconds) ts)
      ≡ count_where (is_live later window_seconds) ts
count-evicted now later w [] l = refl
count-evicted now later w (t ∷ ts) l = ground (arith, l, count-evicted now later w ts l)
