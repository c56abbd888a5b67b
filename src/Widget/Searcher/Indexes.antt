-- ===== src/Widget/Searcher/Indexes.antt =====
-- The values at the indexes of the items that satisfy a test.
use art_platform.Common.{
  ℕ, zero, suc, ◌≡◌, refl, ap, ◌∙◌, sym, Bool, true, false, some, List, [], ◌∷◌, map, get_elem?,
  any, any-filter, filter, ◌&&◌, arith, DeepEqual, ==_iff, Bool-cases, inl, inr,
}
use art_platform.Widget.Searcher.Defs.{same_list, values_at, indexes_where, is_among, indexes_of}

module _ {ℓ} {T : Type ℓ} where
  indexes_where-suc :
      (n : ℕ) (p : T → Bool) (xs : List T)
      → indexes_where (suc n) p xs ≡ map suc (indexes_where n p xs)
  indexes_where-suc n p [] = refl
  indexes_where-suc n p (x ∷ xs) = ground (arith, indexes_where-suc (suc n) p xs)

  values_at-map :
      (is : List ℕ) (x : T) (xs : List T) → values_at (map suc is) (x ∷ xs) ≡ values_at is xs
  values_at-map [] x xs = refl
  values_at-map (i ∷ is) x xs = ground (arith, values_at-map is x xs)

  pub values_at-indexes_where :
      (p : T → Bool) (xs : List T) → values_at (indexes_where 0 p xs) xs ≡ some (filter p xs)
  values_at-indexes_where p [] = refl
  values_at-indexes_where p (x ∷ xs) = ground (
    arith,
    indexes_where-suc 0 p xs,
    values_at-map (indexes_where 0 p xs) x xs,
    values_at-indexes_where p xs,
  )

  -- Two tests that agree on the items give the same indexes.
  abbrev Agree : (p q : T → Bool) → List T → Type 0
  Agree p q [] = Unit
  Agree p q (x ∷ xs) = (p x ≡ q x) × Agree p q xs

  indexes_where-Agree :
      (n : ℕ) (p q : T → Bool) (xs : List T)
      → Agree p q xs
      → indexes_where n p xs ≡ indexes_where n q xs
  indexes_where-Agree n p q [] a = refl
  indexes_where-Agree n p q (x ∷ xs) a = ground (arith, indexes_where-Agree (suc n) p q xs a.1)

  get_elem?-Agree :
      (p q : T → Bool) (xs : List T)
      → ((i : ℕ) (x : T) → get_elem? xs i ≡ some x → p x ≡ q x)
      → Agree p q xs
  get_elem?-Agree p q [] h = tt
  get_elem?-Agree p q (x ∷ xs) h = (h 0 x refl, get_elem?-Agree p q xs (λ i y at. h (suc i) y at))

  any_of_get :
      (r : T → Bool) (xs : List T) (i : ℕ) (x : T)
      → get_elem? xs i ≡ some x
      → r x ≡ true
      → any r xs ≡ true
  any_of_get r [] i x at h = cc
  any_of_get r (y ∷ ys) zero x at h =
      let same : y ≡ x = ground (arith, at) in
      let holds : r y ≡ true = ap r same ∙ h in ground (arith, holds)
  any_of_get r (y ∷ ys) (suc i) x at h = ground (arith, any_of_get r ys i x at h)

  any-witness : (r : T → Bool) (xs : List T) → any r xs ≡ true → (y : T) × (r y ≡ true)
  any-witness r [] h = absurd (cc)
  any-witness r (x ∷ xs) h = elim (Bool-cases (r x)) [
    | inl here ↦ (x, here)
    | inr away ↦ any-witness r xs (rw away at h)
  ]

  any_mono :
      (r s : T → Bool) (xs : List T)
      → ((x : T) → r x ≡ true → s x ≡ true)
      → any r xs ≡ true
      → any s xs ≡ true
  any_mono r s [] f h = h
  any_mono r s (x ∷ xs) f h = ground (arith, f x, any_mono r s xs f)

same_truth : (a b : Bool) → (a ≡ true → b ≡ true) → (b ≡ true → a ≡ true) → a ≡ b
same_truth true b f g = sym (f refl)
same_truth false true f g = g refl
same_truth false false f g = refl

module _ {ℓ} {T : Type ℓ} ⦃e : DeepEqual T⦄ where
  pub same_list_iff : (xs ys : List T) → same_list xs ys ≡ true → xs ≡ ys
  same_list_iff [] [] h = refl
  same_list_iff [] (y ∷ ys) h = cc
  same_list_iff (x ∷ xs) [] h = cc
  same_list_iff (x ∷ xs) (y ∷ ys) h = ground (arith, ==_iff x y, same_list_iff xs ys)

  pub same_list_refl : (xs : List T) → same_list xs xs ≡ true
  same_list_refl [] = refl
  same_list_refl (x ∷ xs) = ground (arith, ==_iff x x, same_list_refl xs)

module _ {ℓ} {T : Type ℓ} ⦃e : DeepEqual T⦄ (compare : T → T → Bool) where
  -- The values at the indexes of some values have those indexes.
  pub indexes_of-filter :
      (values items : List T)
      → ((x : T) → compare x x ≡ true)
      → ((x y z : T) → compare x y ≡ true → compare y z ≡ true → compare x z ≡ true)
      → indexes_of compare (filter (is_among compare values) items) items
        ≡ indexes_of compare values items
  unfolding indexes_of
  indexes_of-filter values items reflexive transitive =
      let p = is_among compare values in
      indexes_where-Agree 0 (is_among compare (filter p items)) p items (
        get_elem?-Agree (is_among compare (filter p items)) p items (λ i x at.
          same_truth (is_among compare (filter p items) x) (p x)
            (λ h.
              let both = sym (any-filter (compare x) p items) ∙ h in
              let (y, hy) = any-witness (λ y. p y && compare x y) items both in
              let py : p y ≡ true = ground (arith, hy) in
              let near : compare x y ≡ true = ground (arith, hy) in
              any_mono (compare y) (compare x) values (λ v c. transitive x y v near c) py)
            (λ h.
              let here : (p x && compare x x) ≡ true = ground (arith, h, reflexive x) in
              any-filter (compare x) p items
              ∙ any_of_get (λ y. p y && compare x y) items i x at here)))
