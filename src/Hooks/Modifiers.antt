-- ===== src/Hooks/Modifiers.antt =====
-- The modifiers of a hotkey against those of an event.
use ko_rkuma.Prelude.{
  true, ◌≡◌, ◌↔◌, refl, String, List, [], ◌∷◌, contains, length, ◌==◌, string_eq, nat_eq, arith,
  Bool-cases, inl, inr, ap, sym, ◌∙◌,
}
use ko_rkuma.Domain.{KeyCombo}
use ko_rkuma.Hooks.{Texts, lowered, all_held, combo_matches}
use ko_rkuma.Hooks.Subset.{AllDistinct, IsSubset, length-subset, subset-full}

module _ (texts : Texts) where
  length-lowered : (modifiers : List String) → length (lowered texts modifiers) ≡ length modifiers
  unfolding lowered
  length-lowered [] = refl
  length-lowered (m ∷ modifiers) = omega (arith, length-lowered modifiers)

  all_held-subset :
      (modifiers event_mods : List String)
      → all_held texts modifiers event_mods ≡ true
      → IsSubset (lowered texts modifiers) event_mods
  unfolding all_held lowered contains
  all_held-subset [] event_mods e s held = cc
  all_held-subset (m ∷ modifiers) event_mods e s held =
      elim (Bool-cases (texts.to_lowercase m == s)) [
        | inl f ↦
            let q : texts.to_lowercase m ≡ s = (string_eq.beq_iff (texts.to_lowercase m) s).0 f in
            ground (arith, e, ap (contains event_mods) q)
        | inr f ↦ ground (
          arith,
          e,
          all_held-subset modifiers event_mods,
          f,
          held,
          all_held-subset modifiers event_mods (ground (arith, e)) s,
        )
      ]

  subset-all_held :
      (modifiers event_mods : List String)
      → IsSubset (lowered texts modifiers) event_mods
      → all_held texts modifiers event_mods ≡ true
  unfolding all_held lowered contains
  subset-all_held [] event_mods sub = refl
  subset-all_held (m ∷ modifiers) event_mods sub =
      let x = texts.to_lowercase m in
      let first = sub x (ground (arith, string_eq.beq_iff x x)) in
      let rest = subset-all_held modifiers event_mods (λ s held. sub s (ground (arith, held))) in
      ground (arith, first, rest)

  -- A combination matches an event exactly when the keys agree up to the case of their letters and
  -- the modifiers are the same set, where neither side repeats a modifier. The order of the modifiers
  -- plays no part, and the combination's may be in any case.
  pub combo_matches_iff :
      (key : String) (event_mods : List String) (combo : KeyCombo)
      → AllDistinct (lowered texts combo.modifiers)
      → AllDistinct event_mods
      → (combo_matches texts key event_mods combo ≡ true) ↔ (
          (texts.eq_ignore_ascii_case combo.key key ≡ true)
          × ((s : String) → contains (lowered texts combo.modifiers) s ≡ contains event_mods s))
  unfolding combo_matches
  combo_matches_iff key event_mods combo distinct distinct_event = (
    λ e.
        let sub = all_held-subset combo.modifiers event_mods (ground (arith, e)) in
        let same_length : length (lowered texts combo.modifiers) ≡ length event_mods =
          length-lowered combo.modifiers
          ∙ (nat_eq.beq_iff (length combo.modifiers) (length event_mods)).0 (ground (arith, e)) in
        let back =
          subset-full (lowered texts combo.modifiers) event_mods distinct sub same_length in
        (ground (arith, e), λ s. ground (arith, sub s, back s)),
    λ (same_key, same).
        let sub : IsSubset (lowered texts combo.modifiers) event_mods =
          λ s held. sym (same s) ∙ held in
        let back : IsSubset event_mods (lowered texts combo.modifiers) = λ s held. same s ∙ held in
        let shorter = length-subset (lowered texts combo.modifiers) event_mods distinct sub in
        let longer = length-subset event_mods (lowered texts combo.modifiers) distinct_event back in
        let same_length : length combo.modifiers ≡ length event_mods =
          omega (arith, shorter, longer, length-lowered combo.modifiers) in
        ground (
          arith,
          same_key,
          (nat_eq.beq_iff (length combo.modifiers) (length event_mods)).1 same_length,
          subset-all_held combo.modifiers event_mods sub,
        ),
  )
