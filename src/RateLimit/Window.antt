-- ===== src/RateLimit/Window.antt =====
-- The sliding window that `check_rate_limit` of app/core/rate_limit.py promises.
use behaviour_sim_api.Base.{
  ℕ, ◌+◌, ◌≤◌, ◌<◌, ◌≡◌, ◌↔◌, ◌⊎◌, ◌∙◌, sym, arith, Bool, true, false, ◌&&◌, Option, none, some,
  List, [], ◌∷◌, ◌++◌, String, refl, if◌then◌else◌, select_where, count_where, count_where-append,
  length-select_where, length, leb, All, All-imp, Bool-cases, Option-cases, inl, inr,
}
use behaviour_sim_api.Dict.{get, Eq-String, ◌==◌, get-put, beq_refl}
use behaviour_sim_api.Store.Rows.{Instant}
use behaviour_sim_api.RateLimit.{
  RateLimiter, is_live, is_dead, sweep, timestamps_of, keep, decide, respond, check_rate_limit,
  reset,
}
use behaviour_sim_api.RateLimit.Sweep.{
  Distinct, delete-Distinct, put-Distinct, get-delete_where, Ascending, select_where-All_of,
  select_where-Ascending, append-All, append-Ascending, is_dead-count, count-evicted,
}

-- The calls that were allowed, with their keys; the latest first.
abbrev pub Log : Type 0
Log = List (String × Instant)

module _ (w : ℕ) where
  -- How many calls of a key were allowed less than a window before `now`.
  abbrev pub allowed : String → Instant → Log → ℕ
  allowed key now log = count_where (λ e. e.0 == key && is_live now w e.1) log

  abbrev pub log_call : String → Instant → Option (Bool × ℕ) → Log → Log
  log_call key now (some (true, r)) log = (key, now) ∷ log
  log_call key now _ log = log

  -- The limiter and the log after calls at times that do not go back.
  pub data Reach : Instant → RateLimiter → Log → Type 0 where
    start : Reach 0 reset []
    call_at :
        {T : Instant} {l : RateLimiter} {log : Log} (key : String) (limit : ℕ) (now : Instant)
        → Reach T l log
        → T ≤ now
        → Reach now
            (check_rate_limit key limit w now l).1
            (log_call key now (check_rate_limit key limit w now l).0 log)

  record Inv (T : Instant) (l : RateLimiter) (log : Log) : Type 0 where
    distinct : Distinct l.records
    ascending : (k : String) → Ascending (timestamps_of k l)
    past : (k : String) → All (λ t. t ≤ T) (timestamps_of k l)
    faithful :
        (k : String) (u : Instant)
        → T ≤ u
        → count_where (is_live u w) (timestamps_of k l) ≡ allowed k u log

  -- What a key has after a sweep: what it had, or nothing if that is dead.
  sweep-timestamps :
      (now : Instant) (l : RateLimiter) (k : String)
      → Distinct l.records
      → (timestamps_of k (sweep now w l) ≡ timestamps_of k l)
        ⊎ (timestamps_of k (sweep now w l) ≡ []) × (is_dead now w (timestamps_of k l) ≡ true)
  unfolding sweep
  sweep-timestamps now l k d = elim (Bool-cases (leb 100 (l.sweep_counter + 1))) [
    | inr e ↦ rw e (inl refl)
    | inl e ↦
        rw (e, get-delete_where (is_dead now w) k l.records d)
          (elim (Option-cases (get k l.records)) [
            | inl g ↦ rw g (inl refl)
            | inr (v, g) ↦ elim (Bool-cases (is_dead now w v)) [
              | inl dead ↦ rw (g, dead) (inr (refl, refl))
              | inr live ↦ rw (g, live) (inl refl)
            ]
          ])
  ]

  sweep-Distinct :
      (now : Instant) (l : RateLimiter) → Distinct l.records → Distinct (sweep now w l).records
  unfolding sweep
  sweep-Distinct now l d = elim (Bool-cases (leb 100 (l.sweep_counter + 1))) [
    | inl e ↦ rw e (delete-Distinct (is_dead now w) l.records d)
    | inr e ↦ rw e d
  ]

  sweep-Inv :
      (T now : Instant) (l : RateLimiter) (log : Log)
      → T ≤ now
      → Inv T l log
      → Inv now (sweep now w l) log
  sweep-Inv T now l log le h = record {
    distinct = sweep-Distinct now l h.distinct;
    ascending = λ k. elim (sweep-timestamps now l k h.distinct) [
      | inl e ↦ rw e (h.ascending k)
      | inr (e, _) ↦ rw e tt
    ];
    past = λ k. elim (sweep-timestamps now l k h.distinct) [
      | inl e ↦ rw e (All-imp _ _ (timestamps_of k l) (λ t b. omega (arith, b, le)) (h.past k))
      | inr (e, _) ↦ rw e tt
    ];
    faithful = λ k u b. elim (sweep-timestamps now l k h.distinct) [
      | inl e ↦ rw e (h.faithful k u (omega (arith, b, le)))
      | inr (e, dead) ↦ rw e (
          omega (
            arith,
            h.faithful k u (omega (arith, b, le)),
            is_dead-count now u w (timestamps_of k l) (h.ascending k) dead b,
          ))
    ];
  }

  keep-timestamps :
      (key k : String) (vs : List Instant) (l : RateLimiter)
      → timestamps_of k (keep key vs l) ≡ (if key == k then vs else timestamps_of k l)
  keep-timestamps key k vs l = ground (arith, get-put key k vs l.records)

  keep-Inv :
      (now : Instant) (l : RateLimiter) (log log' : Log) (key : String) (vs : List Instant)
      → Inv now l log
      → Ascending vs
      → All (λ t. t ≤ now) vs
      → ((u : Instant) → now ≤ u → count_where (is_live u w) vs ≡ allowed key u log')
      → ((k : String) (u : Instant) → (key == k) ≡ false → allowed k u log' ≡ allowed k u log)
      → Inv now (keep key vs l) log'
  keep-Inv now l log log' key vs h a p own others = record {
    distinct = put-Distinct key vs l.records h.distinct;
    ascending = λ k.
        rw (keep-timestamps key k vs l)
          (elim (Bool-cases (key == k)) [ inl e ↦ rw e a | inr e ↦ rw e (h.ascending k) ]);
    past = λ k.
        rw (keep-timestamps key k vs l)
          (elim (Bool-cases (key == k)) [ inl e ↦ rw e p | inr e ↦ rw e (h.past k) ]);
    faithful = λ k u b. rw (keep-timestamps key k vs l) (elim (Bool-cases (key == k)) [
      | inl e ↦ let same : key ≡ k = (Eq-String.beq_iff key k).0 e in rw e (rw same at (own u b))
      | inr e ↦ rw e (h.faithful k u b ∙ sym (others k u e))
    ]);
  }

  respond-Inv :
      (now : Instant) (l : RateLimiter) (log : Log) (key : String) (answer : Option (Bool × ℕ))
      → Inv now l log
      → let valid = select_where (is_live now w) (timestamps_of key l) in
        Inv now
          (respond key now valid l answer).1
          (log_call key now (respond key now valid l answer).0 log)
  unfolding respond
  respond-Inv now l log key none h = h
  respond-Inv now l log key (some (false, r)) h =
      let ts = timestamps_of key l in
      keep-Inv now l log log key (select_where (is_live now w) ts) h
        (select_where-Ascending (is_live now w) ts (h.ascending key))
        (select_where-All_of _ (is_live now w) ts (h.past key))
        (λ u b. count-evicted now u w ts b ∙ h.faithful key u b) (λ k u e. refl)
  respond-Inv now l log key (some (true, r)) h =
      let ts = timestamps_of key l in
      let valid = select_where (is_live now w) ts in
      keep-Inv now l log ((key, now) ∷ log) key (valid ++ now ∷ []) h
        (append-Ascending valid now (select_where-Ascending (is_live now w) ts (h.ascending key))
          (select_where-All_of _ (is_live now w) ts (h.past key)))
        (append-All _ valid now (select_where-All_of _ (is_live now w) ts (h.past key))
          (omega arith))
        (λ u b.
          count_where-append (is_live u w) valid (now ∷ [])
          ∙ ground (arith, count-evicted now u w ts b, h.faithful key u b, beq_refl key))
        (λ k u e. ground (arith, e))

  Reach-Inv : {T : Instant} {l : RateLimiter} {log : Log} → Reach T l log → Inv T l log
  unfolding check_rate_limit reset
  Reach-Inv start = record {
    distinct = tt;
    ascending = λ k. tt;
    past = λ k. tt;
    faithful = λ k u b. refl;
  }
  Reach-Inv (call_at {T = T} {l = l} {log = log} key limit now r le) =
      let swept = sweep now w l in
      respond-Inv now swept log key
        (decide limit w now (select_where (is_live now w) (timestamps_of key swept)))
        (sweep-Inv T now l log le (Reach-Inv r))

  decide_lem :
      (limit : ℕ) (now : Instant) (valid : List Instant)
      → (decide limit w now valid ≡ some (true, 0)) ↔ (length valid < limit)
  unfolding decide
  decide_lem limit now [] = ground arith
  decide_lem limit now (t ∷ ts) = ground arith

  respond-answer :
      (key : String) (now : Instant) (valid : List Instant) (l : RateLimiter)
      (answer : Option (Bool × ℕ))
      → (respond key now valid l answer).0 ≡ answer
  unfolding respond
  respond-answer key now valid l none = refl
  respond-answer key now valid l (some (true, r)) = refl
  respond-answer key now valid l (some (false, r)) = refl

  -- After any calls of any keys with one window at times that do not go back, the next call is
  -- allowed exactly if fewer than the limit of calls of its key were allowed less than a window
  -- before it. Sweeps and evictions make no difference.
  pub check_rate_limit_lem :
      {T : Instant} {l : RateLimiter} {log : Log} (key : String) (limit : ℕ) (now : Instant)
      → Reach T l log
      → T ≤ now
      → ((check_rate_limit key limit w now l).0 ≡ some (true, 0)) ↔ (allowed key now log < limit)
  unfolding check_rate_limit
  check_rate_limit_lem {T = T} {l = l} {log = log} key limit now r le =
      let swept = sweep now w l in
      let ts = timestamps_of key swept in
      let valid = select_where (is_live now w) ts in
      let counted : length valid ≡ allowed key now log =
        length-select_where (is_live now w) ts
        ∙ (sweep-Inv T now l log le (Reach-Inv r)).faithful key now (omega arith) in
      rw (respond-answer key now valid swept (decide limit w now valid), sym counted)
        (decide_lem limit now valid)
