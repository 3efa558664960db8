-- ===== src/Presets/Validity.antt =====
-- What `validate_simulation_parameters` of app/services/simulation.py accepts.
use behaviour_sim_api.Base.{
  ◌≡◌, ◌≢◌, ◌↔◌, ◌⊎◌, ◌∙◌, ap, sym, refl, inl, inr, arith, true, false, List, [], ◌∷◌, ◌++◌, Option,
  none, some, String, Option-cases, Bool-cases, str_eq, eq_iff, eq_refl,
}
use behaviour_sim_api.Dict.{get, Eq-Text, text_eq, text_eq_iff}
use behaviour_sim_api.Store.Rows.{Text}
use behaviour_sim_api.Store.State.{State}
use behaviour_sim_api.Store.Action.{ok}
use behaviour_sim_api.Worker.Order.{Occurs, first, later}
use behaviour_sim_api.Presets.{
  codes, PresetMeta, supported_presets, lower, resolve_alias, normalize_preset_name, unknown,
  contains,
}
use behaviour_sim_api.Presets.Execute.{validate_simulation_parameters, check_options}
use behaviour_sim_api.Presets.Spelling.{
  Blank, Begins, Ends, SmallLetters, lower-SmallLetters, SmallLetters-lower, strip_lem,
}

-- An option that is left out, or one of the list.
abbrev pub Known : Option String → List String → Type 0
Known none allowed = Unit
Known (some x) allowed = Occurs x allowed

contains-Occurs : (x : String) (ys : List String) → contains x ys ≡ true → Occurs x ys
contains-Occurs x [] e = cc
contains-Occurs x (y ∷ ys) e = elim (Bool-cases (str_eq x y)) [
  | inl same ↦ let is_y : x ≡ y = (eq_iff x y).0 same in rw (sym is_y) first
  | inr other ↦ later (contains-Occurs x ys (ground arith))
]

Occurs-contains : (x : String) (ys : List String) → Occurs x ys → contains x ys ≡ true
Occurs-contains x [] o = elim o [ ]
Occurs-contains x (_ ∷ ys) first = rw (eq_refl x)
Occurs-contains x (y ∷ ys) (later o) = ground (arith, Occurs-contains x ys o)

unknown-Known : (o : Option String) (xs : List String) → unknown o xs ≡ false → Known o xs
unknown-Known none xs e = tt
unknown-Known (some x) xs e = contains-Occurs x xs (ground arith)

Known-unknown : (o : Option String) (xs : List String) → Known o xs → unknown o xs ≡ false
Known-unknown none xs k = refl
Known-unknown (some x) xs k = rw (Occurs-contains x xs k)

-- The name in small letters, but for the alias "mobile" of "mobile_app".
abbrev pub Means : Text → Text → Type 0
Means name canonical =
    (t : Text) × SmallLetters name t
    × ((t ≡ codes "mobile") × (canonical ≡ codes "mobile_app")
        ⊎ (t ≢ codes "mobile") × (canonical ≡ t))

resolve_alias-Means : (name : Text) → Means name (resolve_alias (lower name))
unfolding resolve_alias
resolve_alias-Means name =
    let t = lower name in
    let mobile = text_eq_iff (codes "mobile") t in
    elim (Bool-cases (text_eq (codes "mobile") t)) [
      | inl e ↦ (t, lower-SmallLetters name, inl (sym (mobile.0 e), rw (resolve_alias, e) refl))
      | inr n ↦ (
        t,
        lower-SmallLetters name,
        inr (λ same. ground (arith, n, mobile.1 (sym same)), rw (resolve_alias, n) refl),
      )
    ]

Means-resolve_alias :
    (name canonical : Text) → Means name canonical → resolve_alias (lower name) ≡ canonical
unfolding resolve_alias
Means-resolve_alias name canonical (t, small, inl (is_mobile, app)) =
    rw (SmallLetters-lower name t small, is_mobile) (sym app)
Means-resolve_alias name canonical (t, small, inr (other, same)) =
    rw (SmallLetters-lower name t small) (elim (Bool-cases (text_eq (codes "mobile") t)) [
      | inl e ↦ absurd (other (sym ((text_eq_iff (codes "mobile") t).0 e)))
      | inr n ↦ rw (resolve_alias, n) (sym same)
    ])

-- The name means a preset of the table, which knows the profile and the initial state.
abbrev pub Accepts : Text → Option String → Option String → Text → Type 0
Accepts name profile initial_state canonical =
    (meta : PresetMeta) × Means name canonical
    × (get canonical supported_presets ≡ some meta)
    × Known profile meta.supported_profiles
    × Known initial_state meta.supported_states

-- By the canonical name that the code computes.
module _ (preset : Text) (profile initial_state : Option String) (canonical : Text)
    (s : State) where
  abbrev Checks : Type 0
  Checks =
      (meta : PresetMeta) × (normalize_preset_name preset ≡ canonical)
      × (get canonical supported_presets ≡ some meta)
      × (unknown profile meta.supported_profiles ≡ false)
      × (unknown initial_state meta.supported_states ≡ false)

  validate-Checks :
      (validate_simulation_parameters preset profile initial_state s ≡ (ok canonical, s)) ↔ Checks
  unfolding validate_simulation_parameters check_options
  validate-Checks = elim (Option-cases (get (normalize_preset_name preset) supported_presets)) [
    | inl e ↦ (λ h. ground arith, λ a. ground arith)
    | inr (meta, e) ↦
        (λ h. (meta, ground arith, ground arith, ground arith, ground arith), λ a. ground arith)
  ]

-- For a text that is a name with white space round it, the name itself beginning and ending with
-- other characters: the parameters are accepted, with a canonical name, exactly if the name in small
-- letters, or "mobile_app" for "mobile", is the canonical one, that is a preset of the table, and the
-- profile and the initial state are left out or in the preset's lists. The check changes nothing.
pub validate_simulation_parameters_lem :
    (before name after : Text) (profile initial_state : Option String) (canonical : Text)
    (s : State)
    → Blank before
    → Begins name
    → Ends name
    → Blank after
    → (validate_simulation_parameters (before ++ (name ++ after)) profile initial_state s
        ≡ (ok canonical, s))
      ↔ Accepts name profile initial_state canonical
unfolding normalize_preset_name
validate_simulation_parameters_lem before name after profile initial_state canonical s blank begins
      ends blank' =
    let preset = before ++ (name ++ after) in
    let named : normalize_preset_name preset ≡ resolve_alias (lower name) =
      ap (λ t. resolve_alias (lower t)) (strip_lem before name after blank begins ends blank') in
    let (checked, accepted) = validate-Checks preset profile initial_state canonical s in
    (
      λ h.
          let (meta, same, row, profile_ok, state_ok) = checked h in
          let means = resolve_alias-Means name in
          (
            meta,
            rw (sym named ∙ same) at means,
            row,
            unknown-Known profile meta.supported_profiles profile_ok,
            unknown-Known initial_state meta.supported_states state_ok,
          ),
      λ (meta, means, row, profile_ok, state_ok). accepted (
        meta,
        named ∙ Means-resolve_alias name canonical means,
        row,
        Known-unknown profile meta.supported_profiles profile_ok,
        Known-unknown initial_state meta.supported_states state_ok,
      ),
    )
