-- ===== src/Examples/Keys.antt =====
-- The theorem on the modifiers of a hotkey at two modifiers in another order.
use ko_rkuma.Prelude.{true, ◌≡◌, ◌↔◌, refl, String, [], ◌∷◌, contains, ◌==◌, string_eq}
use ko_rkuma.Domain.{KeyCombo}
use ko_rkuma.Hooks.{Texts, lowered, combo_matches}
use ko_rkuma.Hooks.Modifiers.{combo_matches_iff}

-- Texts that are in lower case already.
abbrev lower_only : Texts
lower_only = record {
  to_lowercase = λ s. s;
  eq_ignore_ascii_case = λ s t. s == t;
  contains_text = λ pattern text. pattern == text;
}

abbrev save_as : KeyCombo
save_as = record { modifiers = "ctrl" ∷ "shift" ∷ []; key = "s" }

combo_matches_iff_example :
    (combo_matches lower_only "s" ("shift" ∷ "ctrl" ∷ []) save_as ≡ true) ↔ (
      ((save_as.key == "s") ≡ true)
      × ((s : String)
          → contains (lowered lower_only save_as.modifiers) s ≡ contains ("shift" ∷ "ctrl" ∷ []) s))
unfolding contains lowered
combo_matches_iff_example =
    combo_matches_iff lower_only "s" ("shift" ∷ "ctrl" ∷ []) save_as (refl, (refl, tt))
      (refl, (refl, tt))
