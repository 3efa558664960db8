-- ===== src/Presets/Names.antt =====
-- `normalize_preset_name` of app/services/simulation.py gives canonical names.
use behaviour_sim_api.Base.{
  is_empty, ℕ, ◌≡◌, ◌∙◌, ap, refl, inl, inr, arith, false, [], ◌∷◌, Bool-cases,
}
use behaviour_sim_api.Dict.{text_eq, text_eq_iff}
use behaviour_sim_api.Store.Rows.{Text}
use behaviour_sim_api.Presets.{
  codes, is_space, lstrip, rstrip, strip, lower_char, lower, resolve_alias, normalize_preset_name,
}

is_space-lower_char : (c : ℕ) → is_space (lower_char c) ≡ is_space c
unfolding lower_char
is_space-lower_char c = ground arith

lower_char_idem : (c : ℕ) → lower_char (lower_char c) ≡ lower_char c
unfolding lower_char
lower_char_idem c = ground arith

lower_idem : (s : Text) → lower (lower s) ≡ lower s
unfolding lower
lower_idem [] = refl
lower_idem (c ∷ cs) = cc (lower_char_idem c, lower_idem cs)

is_empty-lower : (s : Text) → is_empty (lower s) ≡ is_empty s
unfolding lower
is_empty-lower [] = refl
is_empty-lower (c ∷ cs) = refl

lstrip-lower : (s : Text) → lstrip (lower s) ≡ lower (lstrip s)
unfolding lstrip lower
lstrip-lower [] = refl
lstrip-lower (c ∷ cs) = ground (arith, is_space-lower_char c, lstrip-lower cs)

rstrip-lower : (s : Text) → rstrip (lower s) ≡ lower (rstrip s)
unfolding rstrip lower
rstrip-lower [] = refl
rstrip-lower (c ∷ cs) =
    ground (arith, is_space-lower_char c, rstrip-lower cs, is_empty-lower (rstrip cs))

strip-lower : (s : Text) → strip (lower s) ≡ lower (strip s)
unfolding strip
strip-lower s = ap rstrip (lstrip-lower s) ∙ rstrip-lower (lstrip s)

rstrip_idem : (s : Text) → rstrip (rstrip s) ≡ rstrip s
unfolding rstrip
rstrip_idem [] = refl
rstrip_idem (c ∷ cs) = ground (arith, rstrip_idem cs)

-- The text does not begin with white space.
abbrev Trimmed : Text → Type 0
Trimmed [] = Unit
Trimmed (c ∷ cs) = is_space c ≡ false

lstrip-Trimmed : (s : Text) → Trimmed (lstrip s)
unfolding lstrip
lstrip-Trimmed [] = tt
lstrip-Trimmed (c ∷ cs) = elim (Bool-cases (is_space c)) [
  | inl e ↦ rw e (lstrip-Trimmed cs)
  | inr e ↦ rw e e
]

rstrip-Trimmed : (s : Text) → Trimmed s → Trimmed (rstrip s)
unfolding rstrip
rstrip-Trimmed [] h = tt
rstrip-Trimmed (c ∷ cs) h = rw h h

lstrip_same : (s : Text) → Trimmed s → lstrip s ≡ s
unfolding lstrip
lstrip_same [] h = refl
lstrip_same (c ∷ cs) h = rw h

strip_idem : (s : Text) → strip (strip s) ≡ strip s
unfolding strip
strip_idem s =
    ap rstrip (lstrip_same (rstrip (lstrip s)) (rstrip-Trimmed (lstrip s) (lstrip-Trimmed s)))
    ∙ rstrip_idem (lstrip s)

clean : Text → Text
clean s = lower (strip s)

clean_idem : (s : Text) → clean (clean s) ≡ clean s
unfolding clean
clean_idem s =
    ap lower (strip-lower (strip s)) ∙ lower_idem (strip (strip s)) ∙ ap lower (strip_idem s)

clean_mobile_app : clean (codes "mobile_app") ≡ codes "mobile_app"
unfolding clean strip lower
clean_mobile_app = refl

resolve-clean : (t : Text) → clean t ≡ t → resolve_alias (clean (resolve_alias t)) ≡ resolve_alias t
unfolding resolve_alias
resolve-clean t e = elim (Bool-cases (text_eq (codes "mobile") t)) [
  | inl a ↦ rw (← (text_eq_iff (codes "mobile") t).0 a) (rw clean_mobile_app refl)
  | inr n ↦ rw n (rw e (rw n refl))
]

-- Normalising a name twice is normalising it once: what is stored in a job and what a filter of the
-- history is compared with are canonical names.
normalize_preset_name_idem :
    (s : Text) → normalize_preset_name (normalize_preset_name s) ≡ normalize_preset_name s
unfolding normalize_preset_name clean
normalize_preset_name_idem s = resolve-clean (clean s) (clean_idem s)

-- Letter case and surrounding white space do not matter.
pub normalize_preset_name-clean :
    (s : Text) → normalize_preset_name (lower (strip s)) ≡ normalize_preset_name s
unfolding normalize_preset_name clean
normalize_preset_name-clean s = ap resolve_alias (clean_idem s)
