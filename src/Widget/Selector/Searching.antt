-- ===== src/Widget/Selector/Searching.antt =====
-- The index that a selector looks up.
use art_platform.Common.{
  ℕ, zero, suc, ◌≡◌, ◌≢◌, refl, ap, ◌∙◌, none, some, List, [], ◌∷◌, get_elem?, find_index?,
  find_index_from, find_index_from-holds, arith, DeepEqual, ◌==◌, ==_iff, Option-cases, inl, inr,
}
use art_platform.Widget.Selector.Defs.{index_of}

module _ {ℓ} {T : Type ℓ} ⦃e : DeepEqual T⦄ where
  find_index_from-of_get :
      (n : ℕ) (xs : List T) (i : ℕ) (v : T)
      → get_elem? xs i ≡ some v
      → find_index_from n (λ x. x == v) xs ≢ none
  find_index_from-of_get n [] i v h = λ q. cc
  find_index_from-of_get n (x ∷ xs) zero v h = ground (arith, ==_iff x v)
  find_index_from-of_get n (x ∷ xs) (suc i) v h =
      ground (arith, find_index_from-of_get (suc n) xs i v h)

  -- A value that is there is at the index that is found for it.
  pub get_elem?-index_of :
      (xs : List T) (i : ℕ) (v : T)
      → get_elem? xs i ≡ some v
      → get_elem? xs (index_of (some v) xs) ≡ some v
  unfolding index_of
  get_elem?-index_of xs i v h = elim (Option-cases (find_index? (λ x. x == v) xs)) [
    | inl none_found ↦ absurd (find_index_from-of_get 0 xs i v h none_found)
    | inr (j, found) ↦
        let (k, jk, x, at, same) = find_index_from-holds 0 (λ x. x == v) xs found in
        let value : x ≡ v = ground (arith, ==_iff x v, same) in
        let index : j ≡ k = omega arith in rw (found, index) (at ∙ ap some value)
  ]

  -- For a value that is not there the index is 0.
  pub index_of_absent :
      (xs : List T) (v : T) → ((i : ℕ) → get_elem? xs i ≢ some v) → index_of (some v) xs ≡ 0
  unfolding index_of
  index_of_absent xs v absent = elim (Option-cases (find_index? (λ x. x == v) xs)) [
    | inl none_found ↦ rw none_found refl
    | inr (j, found) ↦
        let (k, jk, x, at, same) = find_index_from-holds 0 (λ x. x == v) xs found in
        let value : x ≡ v = ground (arith, ==_iff x v, same) in
        absurd (absent k (at ∙ ap some value))
  ]

  pub index_of_first : (x : T) (xs : List T) → index_of (some x) (x ∷ xs) ≡ 0
  unfolding index_of
  index_of_first x xs = ground (arith, ==_iff x x)
