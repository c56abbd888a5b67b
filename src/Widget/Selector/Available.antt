-- ===== src/Widget/Selector/Available.antt =====
-- New available values, and values that are not available.
use art_platform.Common.{
  ℕ, ◌≡◌, ◌≢◌, refl, sym, ap, ◌∙◌, false, some, List, [], ◌∷◌, get_elem?, nat_beq, nat_beq_iff,
  arith, if◌then◌else◌, DeepEqual, ==_false, Bool-cases, inl, inr,
}
use art_platform.Widget.Selector.Defs.{
  Selector, selected_told, index_told, done, then_tell, index_of, same_selected, set_selected,
  set_selected_index, set_available_values,
}
use art_platform.Widget.Selector.Searching.{get_elem?-index_of, index_of_absent, index_of_first}
use art_platform.Widget.Selector.Settling.{
  Settles, select-Settles, index_away-Settles, select_agrees, select_moves, index_moves,
}

module _ {ℓ} {T : Type ℓ} ⦃e : DeepEqual T⦄ where
  -- The new values select the one at the index that is found for the old value.
  renewed-Settles :
      (values : List T) (v target : T) (s : Selector T)
      → s.selected ≡ some v
      → get_elem? values (index_of (some v) values) ≡ some target
      → Settles target values (set_available_values values s)
  unfolding set_available_values set_selected set_selected_index
  renewed-Settles values v target s now at =
      let i = index_of (some v) values in
      elim (Bool-cases (nat_beq s.selected_index i)) [
        | inl here ↦
            let same : s.selected_index ≡ i = ground (arith, nat_beq_iff s.selected_index i) in
            rw (now, here, at, set_available_values)
              (select-Settles 1 i target (record s { available = values }) at
                (λ chosen. ap (get_elem? values) same ∙ at ∙ sym chosen))
        | inr away ↦
            rw (now, away, set_available_values)
              (index_away-Settles i target (record s { available = values }) at away)
      ]

  -- New available values keep the selected value where it is one of them.
  pub set_available_values-kept :
      (values : List T) (i : ℕ) (v : T) (s : Selector T)
      → s.selected ≡ some v
      → get_elem? values i ≡ some v
      → Settles v values (set_available_values values s)
  set_available_values-kept values i v s now at =
      renewed-Settles values v v s now (get_elem?-index_of values i v at)

  -- New available values, of which the selected one is none, select the first of them.
  pub set_available_values-first :
      (x : T) (xs : List T) (v : T) (s : Selector T)
      → s.selected ≡ some v
      → ((i : ℕ) → get_elem? (x ∷ xs) i ≢ some v)
      → Settles x (x ∷ xs) (set_available_values (x ∷ xs) s)
  set_available_values-first x xs v s now absent =
      renewed-Settles (x ∷ xs) v x s now
        (ap (get_elem? (x ∷ xs)) (index_of_absent (x ∷ xs) v absent))

  -- A value that is not available, assigned while another is selected: at the index 0 it stays
  -- selected, though no item has it; at another index the first value is selected in its place, and
  -- the listeners are told that, and after it, last, of the value that is not selected.
  pub set_selected-unavailable :
      (x : T) (xs : List T) (v : T) (s : Selector T)
      → s.available ≡ x ∷ xs
      → ((i : ℕ) → get_elem? (x ∷ xs) i ≢ some v)
      → same_selected s.selected (some v) ≡ false
      → set_selected (some v) s ≡ (
          if nat_beq s.selected_index 0
          then done (record s { selected = some v }) (selected_told (some v) ∷ [])
          else done
              (record s { selected = some x; selected_index = 0 })
              (selected_told (some x) ∷ index_told 0 ∷ selected_told (some v) ∷ []))
  unfolding set_selected
  set_selected-unavailable x xs v s are absent other =
      let zero_found : index_of (some v) s.available ≡ 0 =
        ap (index_of (some v)) are ∙ index_of_absent (x ∷ xs) v absent in
      let moved = record s { selected = some v } in
      elim (Bool-cases (nat_beq s.selected_index 0)) [
        | inl here ↦
            rw
              (
                here,
                select_agrees 3 (some v) s other (ap (nat_beq s.selected_index) zero_found ∙ here),
              )
              refl
        | inr away ↦
            rw
              (
                away,
                select_moves 3 (some v) s other (ap (nat_beq s.selected_index) zero_found ∙ away),
                zero_found,
              )
              (ap (then_tell (selected_told (some v))) (
                index_moves 2 0 x moved (ap (λ ys. get_elem? ys 0) are) away
                ∙ ap (then_tell (index_told 0)) (
                    select_agrees 1 (some x) (record moved { selected_index = 0 })
                      (==_false v x (λ same. absent 0 (ap some (sym same))))
                      (ap (nat_beq 0) (ap (index_of (some x)) are ∙ index_of_first x xs)))))
      ]
