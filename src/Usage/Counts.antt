-- ===== src/Usage/Counts.antt =====
-- What the rows of `monthly_usage` say: the counts of a user in a period, and how each operation of
-- app/services/usage.py changes them.
use behaviour_sim_api.Base.{
  ℕ, ◌+◌, ◌<◌, ◌≡◌, refl, inl, inr, arith, false, ◌&&◌, Option, none, some, ◌==◌, Bool-cases,
  Option-cases, All, find_first, UniqueKeys, find_first-key, UniqueKeys-append, All-append, All-imp,
  find_first-holds, ==_refl, [], ◌∷◌, ◌++◌, find_first-append,
}
use behaviour_sim_api.Store.Rows.{Uuid, Instant, MonthlyUsage}
use behaviour_sim_api.Store.State.{State}
use behaviour_sim_api.Store.Action.{ok}
use behaviour_sim_api.Usage.{is_row, new_usage, get_or_create_monthly_usage}

-- The counts of a user in a period; a missing row counts nothing.
abbrev pub counts_of : Option MonthlyUsage → ℕ × ℕ
counts_of none = (0, 0)
counts_of (some u) = (u.request_count, u.interaction_count)

abbrev pub used : Uuid → Instant → State → ℕ × ℕ
used user_id period s = counts_of (find_first (is_row user_id period) s.monthly_usage)

-- The ids of the rows differ, and the supply of ids is ahead of them.
pub record UsageRows (s : State) : Type 0 where
  pub distinct : UniqueKeys (λ u. u.id) s.monthly_usage
  pub fresh : All (λ u. u.id < s.next_uuid) s.monthly_usage

-- The row that `get_or_create_monthly_usage` returns is in the table then, and counts what the user
-- has used.
pub record HasRow (user_id : Uuid) (period : Instant) (old new : State) (u : MonthlyUsage)
    : Type 0 where
  pub found : find_first (is_row user_id period) new.monthly_usage ≡ some u
  pub counts : counts_of (some u) ≡ used user_id period old
  pub rows : UsageRows new
  pub others : (v : Uuid) (q : Instant) → used v q new ≡ used v q old
  pub same_plans : new.plans ≡ old.plans
  pub same_clock : new.clock ≡ old.clock

module _ (user_id : Uuid) (period : Instant) (s : State) (h : UsageRows s) where
  new-HasRow :
      find_first (is_row user_id period) s.monthly_usage ≡ none
      → HasRow user_id period s
          (record s {
            monthly_usage = s.monthly_usage ++ new_usage s.next_uuid user_id period s.clock ∷ [];
            next_uuid = s.next_uuid + 1;
          })
          (new_usage s.next_uuid user_id period s.clock)
  new-HasRow e = record {
    found =
        rw (find_first-append (is_row user_id period) s.monthly_usage _, e)
          (rw (==_refl user_id, ==_refl period));
    counts = rw e;
    rows = record {
      distinct = UniqueKeys-append (λ u. u.id) s.monthly_usage _ h.distinct h.fresh;
      fresh =
          All-append (λ u. u.id < s.next_uuid + 1) s.monthly_usage _
            (All-imp (λ u. u.id < s.next_uuid) _ s.monthly_usage (λ a l. omega arith) h.fresh)
            (omega arith, tt);
    };
    others = λ v q. ground (
      arith,
      find_first-append (is_row v q) s.monthly_usage
          (new_usage s.next_uuid user_id period s.clock ∷ []),
    );
    same_plans = refl;
    same_clock = refl;
  }

  pub get_or_create-HasRow :
      let (r, s') = get_or_create_monthly_usage user_id period s in
      (u : MonthlyUsage) × (r ≡ ok u) × HasRow user_id period s s' u
  unfolding get_or_create_monthly_usage
  get_or_create-HasRow = elim (Option-cases (find_first (is_row user_id period) s.monthly_usage)) [
    | inl e ↦ rw (e, get_or_create_monthly_usage) (_, refl, new-HasRow e)
    | inr (u, e) ↦
        rw (e, get_or_create_monthly_usage)
          (
            u,
            refl,
            record {
              found = e;
              counts = rw e;
              rows = h;
              others = λ v q. refl;
              same_plans = refl;
              same_clock = refl;
            },
          )
  ]

-- The row `u` of a user in a period.
module _ (user_id : Uuid) (period : Instant) (s : State) (h : UsageRows s) (u : MonthlyUsage)
    (found : find_first (is_row user_id period) s.monthly_usage ≡ some u) where
  pub by_id : find_first (λ v. v.id == u.id) s.monthly_usage ≡ some u
  by_id = find_first-key (λ v. v.id) (is_row user_id period) s.monthly_usage u h.distinct found

  -- The row of another user or another period is not the row `u`.
  pub not_charged :
      (v : Uuid) (q : Instant) (w : MonthlyUsage)
      → ((v == user_id) && (q == period)) ≡ false
      → find_first (is_row v q) s.monthly_usage ≡ some w
      → (w.id == u.id) ≡ false
  not_charged v q w ne e = elim (Bool-cases (w.id == u.id)) [
    | inr f ↦ f
    | inl t ↦
        let same : find_first (λ x. x.id == w.id) s.monthly_usage ≡ some w =
          find_first-key (λ x. x.id) (is_row v q) s.monthly_usage w h.distinct e in
        let ids : w.id ≡ u.id = ground arith in
        let eq : w ≡ u = cc (rw ids at same, by_id) in
        ground (
          arith,
          find_first-holds (is_row v q) s.monthly_usage w e,
          find_first-holds (is_row user_id period) s.monthly_usage u found,
        )
  ]
