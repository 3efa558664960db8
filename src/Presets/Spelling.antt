-- ===== src/Presets/Spelling.antt =====
-- How a name is spelled that `normalize_preset_name` of app/services/simulation.py takes for a preset:
-- its letters in any case, with white space round it.
use behaviour_sim_api.Base.{
  ℕ, ◌+◌, ◌≤◌, ◌≡◌, ◌⊎◌, ◌∙◌, ap, refl, arith, true, false, [], ◌∷◌, ◌++◌, All,
}
use behaviour_sim_api.Store.Rows.{Text}
use behaviour_sim_api.Presets.{is_space, lstrip, rstrip, strip, lower_char, lower}

abbrev pub Blank : Text → Type 0
Blank t = All (λ c. is_space c ≡ true) t

abbrev pub Begins : Text → Type 0
Begins [] = ⊥
Begins (c ∷ cs) = is_space c ≡ false

abbrev pub Ends : Text → Type 0
Ends [] = ⊥
Ends (c ∷ []) = is_space c ≡ false
Ends (c ∷ d ∷ cs) = Ends (d ∷ cs)

-- An ASCII capital and its small letter, or another character twice.
abbrev pub SmallLetter : ℕ → ℕ → Type 0
SmallLetter c d = (65 ≤ c) × (c ≤ 90) × (d ≡ c + 32) ⊎ ((c ≤ 64) ⊎ (91 ≤ c)) × (d ≡ c)

abbrev pub SmallLetters : Text → Text → Type 0
SmallLetters [] [] = Unit
SmallLetters (c ∷ cs) (d ∷ ds) = SmallLetter c d × SmallLetters cs ds
SmallLetters _ _ = ⊥

pub lower-SmallLetters : (s : Text) → SmallLetters s (lower s)
unfolding lower lower_char
lower-SmallLetters [] = tt
lower-SmallLetters (c ∷ cs) = (ground arith, lower-SmallLetters cs)

pub SmallLetters-lower : (s t : Text) → SmallLetters s t → lower s ≡ t
unfolding lower lower_char
SmallLetters-lower [] [] h = refl
SmallLetters-lower [] (d ∷ ds) h = absurd h
SmallLetters-lower (c ∷ cs) [] h = absurd h
SmallLetters-lower (c ∷ cs) (d ∷ ds) h = ground (arith, h.0, SmallLetters-lower cs ds h.1)

lstrip-Blank : (pre t : Text) → Blank pre → lstrip (pre ++ t) ≡ lstrip t
unfolding lstrip
lstrip-Blank [] t h = refl
lstrip-Blank (c ∷ cs) t h = rw (h.0, lstrip) (lstrip-Blank cs t h.1)

rstrip-Blank : (t : Text) → Blank t → rstrip t ≡ []
unfolding rstrip
rstrip-Blank [] h = refl
rstrip-Blank (c ∷ cs) h = rw (h.0, rstrip, rstrip-Blank cs h.1) refl

rstrip-Ends : (core post : Text) → Ends core → Blank post → rstrip (core ++ post) ≡ core
unfolding rstrip
rstrip-Ends [] post e h = absurd e
rstrip-Ends (c ∷ []) post e h = rw (rstrip, e, rstrip-Blank post h) refl
rstrip-Ends (c ∷ d ∷ cs) post e h = ground (arith, rstrip-Ends (d ∷ cs) post e h)

lstrip-Begins : (core post : Text) → Begins core → lstrip (core ++ post) ≡ core ++ post
unfolding lstrip
lstrip-Begins [] post b = absurd b
lstrip-Begins (c ∷ cs) post b = rw (b, lstrip) refl

-- The white space round a name is what `strip` takes off.
pub strip_lem :
    (pre core post : Text)
    → Blank pre
    → Begins core
    → Ends core
    → Blank post
    → strip (pre ++ (core ++ post)) ≡ core
unfolding strip
strip_lem pre core post before begins ends after =
    ap rstrip (lstrip-Blank pre (core ++ post) before ∙ lstrip-Begins core post begins)
    ∙ rstrip-Ends core post ends after
