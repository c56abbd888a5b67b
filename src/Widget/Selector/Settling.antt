-- ===== src/Widget/Selector/Settling.antt =====
-- Where the assignments to the two properties of a selector end.
use art_platform.Common.{
  ℕ, suc, ◌≡◌, refl, sym, ap, ◌∙◌, true, false, Option, none, some, List, [], ◌∷◌, get_elem?,
  nat_beq, nat_beq_iff, arith, DeepEqual, ==_iff, ==_refl, Bool-cases, inl, inr,
}
use art_platform.Widget.Selector.Defs.{
  Selector, Call, selected_told, index_told, select, select_index, Outcome, done, thrown, exhausted,
  then_tell, index_of, same_selected, assign, set_selected, set_selected_index,
}
use art_platform.Widget.Selector.Searching.{get_elem?-index_of}

module _ {ℓ} {T : Type ℓ} ⦃e : DeepEqual T⦄ where
  -- The value selected is that of the item at the index selected.
  abbrev pub Agrees : Selector T → Type ℓ
  Agrees s = get_elem? s.available s.selected_index ≡ s.selected

  -- An outcome is a state with the given values, in which the given one is selected.
  abbrev pub Settles : T → List T → Outcome T → Type ℓ
  Settles v xs (done s calls) = (s.selected ≡ some v) × Agrees s × (s.available ≡ xs)
  Settles v xs thrown = some v ≡ none
  Settles v xs exhausted = some v ≡ none

  then_tell-Settles :
      (v : T) (xs : List T) (call : Call T) (o : Outcome T)
      → Settles v xs o
      → Settles v xs (then_tell call o)
  then_tell-Settles v xs call (done s calls) h = h
  then_tell-Settles v xs call thrown h = h
  then_tell-Settles v xs call exhausted h = h

  select_same :
      (fuel : ℕ) (v : Option T) (s : Selector T)
      → same_selected s.selected v ≡ true
      → assign (suc fuel) (select v) s ≡ done (record s { selected = v }) []
  unfolding assign
  select_same fuel v s h = simp h refl

  pub select_agrees :
      (fuel : ℕ) (v : Option T) (s : Selector T)
      → same_selected s.selected v ≡ false
      → nat_beq s.selected_index (index_of v s.available) ≡ true
      → assign (suc fuel) (select v) s ≡ done (record s { selected = v }) (selected_told v ∷ [])
  unfolding assign
  select_agrees fuel v s h i = simp (h, i) refl

  pub select_moves :
      (fuel : ℕ) (v : Option T) (s : Selector T)
      → same_selected s.selected v ≡ false
      → nat_beq s.selected_index (index_of v s.available) ≡ false
      → assign (suc fuel) (select v) s
        ≡ then_tell
            (selected_told v)
            (assign fuel (select_index (index_of v s.available)) (record s { selected = v }))
  unfolding assign
  select_moves fuel v s h i = simp (h, i) refl

  index_same :
      (fuel i : ℕ) (v : T) (s : Selector T)
      → get_elem? s.available i ≡ some v
      → nat_beq s.selected_index i ≡ true
      → assign (suc fuel) (select_index i) s ≡ done s []
  unfolding assign
  index_same fuel i v s h j = rw (h, j, assign) refl

  pub index_moves :
      (fuel i : ℕ) (v : T) (s : Selector T)
      → get_elem? s.available i ≡ some v
      → nat_beq s.selected_index i ≡ false
      → assign (suc fuel) (select_index i) s
        ≡ then_tell (index_told i) (assign fuel (select (some v)) (record s { selected_index = i }))
  unfolding assign
  index_moves fuel i v s h j = rw (h, j, assign) refl

  same_iff : (o : Option T) (v : T) → same_selected o (some v) ≡ true → o ≡ some v
  same_iff none v h = cc
  same_iff (some x) v h = ground (arith, ==_iff x v)

  -- The value is selected already: only the index moves.
  index-Settles :
      (fuel i : ℕ) (v : T) (s : Selector T)
      → get_elem? s.available i ≡ some v
      → s.selected ≡ some v
      → Settles v s.available (assign (suc (suc fuel)) (select_index i) s)
  index-Settles fuel i v s at now = elim (Bool-cases (nat_beq s.selected_index i)) [
    | inl here ↦
        let same : s.selected_index ≡ i = ground (arith, nat_beq_iff s.selected_index i) in
        rw (index_same (suc fuel) i v s at here)
          (now, ap (get_elem? s.available) same ∙ at ∙ sym now, refl)
    | inr away ↦
        rw
          (
            index_moves (suc fuel) i v s at away,
            select_same fuel (some v) (record s { selected_index = i })
                (ap (λ o. same_selected o (some v)) now ∙ ==_refl v),
          )
          (refl, at, refl)
  ]

  pub select-Settles :
      (fuel i : ℕ) (v : T) (s : Selector T)
      → get_elem? s.available i ≡ some v
      → (s.selected ≡ some v → Agrees s)
      → Settles v s.available (assign (suc (suc (suc fuel))) (select (some v)) s)
  select-Settles fuel i v s at agree =
      let found = get_elem?-index_of s.available i v at in
      let j = index_of (some v) s.available in
      elim (Bool-cases (same_selected s.selected (some v))) [
        | inl same ↦
            let now = same_iff s.selected v same in
            rw (select_same (suc (suc fuel)) (some v) s same) (refl, agree now ∙ now, refl)
        | inr other ↦ elim (Bool-cases (nat_beq s.selected_index j)) [
          | inl here ↦
              let same : s.selected_index ≡ j = ground (arith, nat_beq_iff s.selected_index j) in
              rw (select_agrees (suc (suc fuel)) (some v) s other here)
                (refl, ap (get_elem? s.available) same ∙ found, refl)
          | inr away ↦ rw (select_moves (suc (suc fuel)) (some v) s other away) (
              then_tell-Settles v s.available (selected_told (some v)) _
                (index-Settles fuel j v (record s { selected = some v }) found refl))
        ]
      ]

  pub index_away-Settles :
      (i : ℕ) (v : T) (s : Selector T)
      → get_elem? s.available i ≡ some v
      → nat_beq s.selected_index i ≡ false
      → Settles v s.available (assign 4 (select_index i) s)
  index_away-Settles i v s at away = rw (index_moves 3 i v s at away) (
      then_tell-Settles v s.available (index_told i) _
        (select-Settles 0 i v (record s { selected_index = i }) at (λ now. at ∙ sym now)))

  -- Where the value selected is that of the item at the index selected, and an available value is
  -- assigned to `selected`, the chain of assignments ends, with that
  -- value selected, the index at an item of that value, and the values as they were.
  pub set_selected-Settles :
      (i : ℕ) (v : T) (s : Selector T)
      → Agrees s
      → get_elem? s.available i ≡ some v
      → Settles v s.available (set_selected (some v) s)
  unfolding set_selected
  set_selected-Settles i v s agree at = select-Settles 1 i v s at (λ now. agree)

  -- Where the value selected is that of the item at the index selected, and an index in range is
  -- assigned to `selectedIndex`, the chain of assignments ends, with the
  -- value at that index selected, the index at an item of that value, and the values as they were.
  pub set_selected_index-Settles :
      (i : ℕ) (v : T) (s : Selector T)
      → Agrees s
      → get_elem? s.available i ≡ some v
      → Settles v s.available (set_selected_index i s)
  unfolding set_selected_index
  set_selected_index-Settles i v s agree at = elim (Bool-cases (nat_beq s.selected_index i)) [
    | inl here ↦
        let same : s.selected_index ≡ i = ground (arith, nat_beq_iff s.selected_index i) in
        let now = sym agree ∙ ap (get_elem? s.available) same ∙ at in
        rw (index_same 3 i v s at here) (now, agree, refl)
    | inr away ↦ index_away-Settles i v s at away
  ]
