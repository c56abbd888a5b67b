-- ===== src/Widget/Searcher/Settling.antt =====
-- Where the assignments to the two properties of a searcher end.
use art_platform.Common.{
  ℕ, suc, ◌≡◌, refl, sym, ap, ◌∙◌, Bool, true, false, some, List, [], ◌∷◌, filter, DeepEqual,
  nat_eq, Bool-cases, ◌⊎◌, inl, inr,
}
use art_platform.Widget.Searcher.Defs.{
  Searcher, Call, selected_told, indexes_told, select, select_indexes, Outcome, done, thrown,
  exhausted, then_tell, same_list, values_at, is_among, indexes_of, assign, set_selected,
  set_selected_indexes,
}
use art_platform.Widget.Searcher.Indexes.{
  values_at-indexes_where, same_list_iff, same_list_refl, indexes_of-filter,
}

module _ {ℓ} {T : Type ℓ} ⦃e : DeepEqual T⦄ (compare : T → T → Bool)
    (reflexive : (x : T) → compare x x ≡ true)
    (transitive : (x y z : T) → compare x y ≡ true → compare y z ≡ true → compare x z ≡ true) where
  -- The items that compare with one of the values.
  abbrev pub chosen : List T → List T → List T
  chosen values items = filter (is_among compare values) items

  values_at-indexes_of :
      (values items : List T)
      → values_at (indexes_of compare values items) items ≡ some (chosen values items)
  unfolding indexes_of
  values_at-indexes_of values items = values_at-indexes_where (is_among compare values) items

  indexes_of-chosen :
      (values items : List T)
      → indexes_of compare (chosen values items) items ≡ indexes_of compare values items
  indexes_of-chosen values items = indexes_of-filter compare values items reflexive transitive

  select_same :
      (fuel : ℕ) (values : List T) (s : Searcher T)
      → same_list s.selected values ≡ true
      → assign compare (suc fuel) (select values) s ≡ done s []
  unfolding assign
  select_same fuel values s h = simp h refl

  select_moves :
      (fuel : ℕ) (values : List T) (s : Searcher T)
      → same_list s.selected values ≡ false
      → assign compare (suc fuel) (select values) s
        ≡ then_tell (selected_told values) (
            assign compare fuel
              (select_indexes (indexes_of compare values s.available))
              (record s { selected = values }))
  unfolding assign
  select_moves fuel values s h = simp h refl

  indexes_same :
      (fuel : ℕ) (is : List ℕ) (values : List T) (s : Searcher T)
      → values_at is s.available ≡ some values
      → same_list s.selected_indexes is ≡ true
      → assign compare (suc fuel) (select_indexes is) s ≡ done s []
  unfolding assign
  indexes_same fuel is values s h j = rw (h, j, assign) refl

  indexes_move :
      (fuel : ℕ) (is : List ℕ) (values : List T) (s : Searcher T)
      → values_at is s.available ≡ some values
      → same_list s.selected_indexes is ≡ false
      → assign compare (suc fuel) (select_indexes is) s
        ≡ then_tell
            (indexes_told is)
            (assign compare fuel (select values) (record s { selected_indexes = is }))
  unfolding assign
  indexes_move fuel is values s h j = rw (h, j, assign) refl

  -- The indexes selected are those of the values selected, in order.
  abbrev pub Agrees : Searcher T → Type 0
  Agrees s = s.selected_indexes ≡ indexes_of compare s.selected s.available

  -- The values selected are the given ones, or the items that compare with one of them.
  abbrev pub Chooses : List T → Searcher T → Type ℓ
  Chooses values s = (s.selected ≡ values) ⊎ (s.selected ≡ chosen values s.available)

  -- An outcome is a state of the given items in which the values chosen are the given ones; and one
  -- in which the properties agree.
  abbrev pub Rests : List T → List T → Outcome T → Type ℓ
  Rests values xs (done s calls) = Chooses values s × (s.available ≡ xs)
  Rests values xs thrown = xs ∷ [] ≡ []
  Rests values xs exhausted = xs ∷ [] ≡ []

  abbrev pub Settles : List T → List T → Outcome T → Type ℓ
  Settles values xs (done s calls) = Chooses values s × Agrees s × (s.available ≡ xs)
  Settles values xs thrown = xs ∷ [] ≡ []
  Settles values xs exhausted = xs ∷ [] ≡ []

  then_tell-Settles :
      (values xs : List T) (call : Call T) (o : Outcome T)
      → Settles values xs o
      → Settles values xs (then_tell call o)
  then_tell-Settles values xs call (done s calls) h = h
  then_tell-Settles values xs call thrown h = h
  then_tell-Settles values xs call exhausted h = h

  then_tell-Rests :
      (values xs : List T) (call : Call T) (o : Outcome T)
      → Settles values xs o
      → Rests values xs (then_tell call o)
  then_tell-Rests values xs call (done s calls) (c, a, same) = (c, same)
  then_tell-Rests values xs call thrown h = h
  then_tell-Rests values xs call exhausted h = h

  -- The indexes are those of the values already: the values become the items at them.
  chosen-Settles :
      (fuel : ℕ) (values : List T) (s : Searcher T)
      → s.selected_indexes ≡ indexes_of compare values s.available
      → Settles values s.available
          (assign compare (suc (suc fuel)) (select (chosen values s.available)) s)
  chosen-Settles fuel values s agree =
      let xs = s.available in
      let again = indexes_of-chosen values xs in
      elim (Bool-cases (same_list s.selected (chosen values xs))) [
        | inl same ↦
            let now = same_list_iff s.selected (chosen values xs) same in
            rw (select_same (suc fuel) (chosen values xs) s same)
              (inr now, agree ∙ sym again ∙ ap (λ vs. indexes_of compare vs xs) (sym now), refl)
        | inr other ↦
            let still : same_list s.selected_indexes (indexes_of compare (chosen values xs) xs)
                ≡ true =
              rw (again, agree) (same_list_refl (indexes_of compare values xs)) in
            rw
              (
                select_moves (suc fuel) (chosen values xs) s other,
                indexes_same fuel (indexes_of compare (chosen values xs) xs)
                    (chosen (chosen values xs) xs) (record s { selected = chosen values xs })
                    (values_at-indexes_of (chosen values xs) xs) still,
              )
              (inr refl, agree ∙ sym again, refl)
      ]

  select-Settles :
      (fuel : ℕ) (values : List T) (s : Searcher T)
      → (same_list s.selected values ≡ true → Agrees s)
      → Settles values s.available (assign compare (suc (suc (suc (suc fuel)))) (select values) s)
  select-Settles fuel values s agree =
      let xs = s.available in
      let is = indexes_of compare values xs in
      let moved = record s { selected = values } in
      elim (Bool-cases (same_list s.selected values)) [
        | inl same ↦
            rw (select_same (suc (suc (suc fuel))) values s same)
              (inl (same_list_iff s.selected values same), agree same, refl)
        | inr other ↦ elim (Bool-cases (same_list s.selected_indexes is)) [
          | inl here ↦
              rw
                (
                  select_moves (suc (suc (suc fuel))) values s other,
                  indexes_same (suc (suc fuel)) is (chosen values xs) moved
                      (values_at-indexes_of values xs) here,
                )
                (inl refl, same_list_iff s.selected_indexes is here, refl)
          | inr away ↦
              rw
                (
                  select_moves (suc (suc (suc fuel))) values s other,
                  indexes_move (suc (suc fuel)) is (chosen values xs) moved
                      (values_at-indexes_of values xs) away,
                )
                (then_tell-Settles values xs (selected_told values) _ (
                  then_tell-Settles values xs (indexes_told is) _
                    (chosen-Settles fuel values (record moved { selected_indexes = is }) refl)))
        ]
      ]

  -- Where the comparator is reflexive and transitive, and the indexes selected are those of the
  -- values selected, the chain of assignments that an assignment of any values to `selected` starts
  -- ends: the indexes are those of the values selected, which
  -- are the assigned ones or the items that compare with one of them, and the items are as they were.
  pub set_selected-Settles :
      (values : List T) (s : Searcher T)
      → Agrees s
      → Settles values s.available (set_selected compare values s)
  unfolding set_selected
  set_selected-Settles values s agree = select-Settles 0 values s (λ same. agree)

  -- Likewise the chain that an assignment of other indexes of items to `selectedIndexes` starts ends:
  -- the values selected are those at the indexes, or the items that compare with one of them.
  pub set_selected_indexes-Rests :
      (is : List ℕ) (values : List T) (s : Searcher T)
      → values_at is s.available ≡ some values
      → same_list s.selected_indexes is ≡ false
      → Rests values s.available (set_selected_indexes compare is s)
  unfolding set_selected_indexes
  set_selected_indexes-Rests is values s at away =
      let moved = record s { selected_indexes = is } in
      rw (indexes_move 5 is values s at away) (elim (Bool-cases (same_list s.selected values)) [
        | inl same ↦
            rw (select_same 4 values moved same) (inl (same_list_iff s.selected values same), refl)
        | inr other ↦
            then_tell-Rests values s.available (indexes_told is) _
              (select-Settles 1 values moved (λ same. absurd (cc)))
      ])
