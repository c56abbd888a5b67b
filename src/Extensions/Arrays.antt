-- ===== src/Extensions/Arrays.antt =====
-- The methods of `Array` in framework/extensions/extensions.ts that look elements up, replace them
-- and cut an array, and the functions on arrays that may be absent. `equal` (fast-deep-equal) is
-- the interface `DeepEqual`.
use art_platform.Common.{
  ℕ, zero, suc, ◌≡◌, ◌≤◌, ◌<◌, refl, ap, ◌∙◌, Bool, true, false, not, ◌&&◌, Option, none, some,
  List, [], ◌∷◌, ◌++◌, arith, if◌then◌else◌, DeepEqual, ◌==◌, ==_iff, any, filter, find_index_from,
  find_index?, find_index_from-holds, All, length, assign, take, drop, get_elem?, ltb,
  take-append-drop, length-drop,
}

module _ {ℓ} {A : Type ℓ} where
  -- `lengthOf`, `isEmptyArray`, `isNotEmptyArray` (by its truth) and `hasIndex` on natural indexes
  unfoldable pub length_of : Option (List A) → ℕ
  length_of none = 0
  length_of (some xs) = length xs

  unfoldable pub is_empty_array : Option (List A) → Bool
  is_empty_array none = true
  is_empty_array (some xs) = ltb (length xs) 1

  pub is_empty_array-cons : (x : A) (xs : List A) → is_empty_array (some (x ∷ xs)) ≡ false
  unfolding is_empty_array
  is_empty_array-cons x xs = ground arith

  unfoldable pub is_not_empty_array : Option (List A) → Bool
  is_not_empty_array none = false
  is_not_empty_array (some xs) = ltb 0 (length xs)

  unfoldable pub has_index : ℕ → Option (List A) → Bool
  unfolding is_not_empty_array
  has_index i none = false
  has_index i (some xs) = is_not_empty_array (some xs) && ltb i (length xs)

  -- `Array.prototype.last`; `undefined` is `none`
  unfoldable pub last : List A → Option A
  last [] = none
  last (x ∷ xs) = get_elem? (x ∷ xs) (length xs)

  -- `Array.prototype.count`
  unfoldable pub count : (A → Bool) → List A → ℕ
  count p xs = length (filter p xs)

  -- `Array.prototype.with`: the receiver grows and is returned.
  unfoldable pub with_pushed : A → List A → List A
  with_pushed x xs = xs ++ x ∷ []

  -- The loop of `chunks`, from the index `i` on. With a chunk size of 0 the source's loop does not
  -- end; `none` stands for fuel that ran out.
  unfoldable pub chunks_from : ℕ → ℕ → List A → Option (List (List A))
  chunks_from zero size rest = none
  chunks_from (suc fuel) size [] = some []
  chunks_from (suc fuel) size (x ∷ xs) =
      let later = chunks_from fuel size (drop size (x ∷ xs)) in
      elim later [ none ↦ none | some cs ↦ some (take size (x ∷ xs) ∷ cs) ]

  -- One round for each element and one for the test that ends the loop.
  unfoldable pub chunks : ℕ → List A → Option (List (List A))
  unfolding chunks_from
  chunks size xs = chunks_from (suc (length xs)) size xs

  abbrev pub concat : List (List A) → List A
  concat [] = []
  concat (c ∷ cs) = c ++ concat cs

  -- What a cut into chunks is: the pieces joined are the array, and each has at least one and at
  -- most `size` elements.
  abbrev pub IsCut : ℕ → List A → List (List A) → Type ℓ
  IsCut size xs cs = (concat cs ≡ xs) × All (λ c. (0 < length c) × (length c ≤ size)) cs

  length-take-le : (n : ℕ) (xs : List A) → length (take n xs) ≤ n
  length-take-le zero xs = omega arith
  length-take-le (suc n) [] = omega arith
  length-take-le (suc n) (x ∷ xs) = omega (arith, length-take-le n xs)

  chunks_from-IsCut :
      (fuel size : ℕ) (xs : List A)
      → length xs < fuel
      → (cs : List (List A)) × (chunks_from fuel (suc size) xs ≡ some cs) × IsCut (suc size) xs cs
  unfolding chunks_from
  chunks_from-IsCut zero size xs h = absurd (omega arith)
  chunks_from-IsCut (suc fuel) size [] h = ([], refl, (refl, tt))
  chunks_from-IsCut (suc fuel) size (x ∷ xs) h =
      let (cs, run, (whole, sizes)) =
        chunks_from-IsCut fuel size (drop size xs) (omega (arith, length-drop size xs)) in
      (
        (x ∷ take size xs) ∷ cs,
        rw run,
        (
          ap (◌∷◌ x) (ap (◌++◌ (take size xs)) whole ∙ take-append-drop size xs),
          ((omega arith, omega (arith, length-take-le size xs)), sizes),
        ),
      )

  -- With a positive size `chunks` ends, and cuts the array.
  pub chunks-IsCut :
      (size : ℕ) (xs : List A)
      → 0 < size
      → (cs : List (List A)) × (chunks size xs ≡ some cs) × IsCut size xs cs
  unfolding chunks
  chunks-IsCut zero xs h = absurd (omega arith)
  chunks-IsCut (suc size) xs h = chunks_from-IsCut (suc (length xs)) size xs (omega arith)

  -- With the size 0 no number of rounds ends the loop on an array that is not empty.
  pub chunks_from-zero : (fuel : ℕ) (x : A) (xs : List A) → chunks_from fuel 0 (x ∷ xs) ≡ none
  unfolding chunks_from
  chunks_from-zero zero x xs = refl
  chunks_from-zero (suc fuel) x xs = rw (chunks_from-zero fuel x xs)

module _ {ℓ} {A : Type ℓ} ⦃e : DeepEqual A⦄ where
  -- `Array.prototype.has`
  unfoldable pub has : List A → A → Bool
  has xs x = any (λ current. current == x) xs

  -- `Array.prototype.put`
  unfoldable pub put : List A → A → List A
  put xs x = elim (find_index? (λ current. current == x) xs) [
    | none ↦ xs ++ x ∷ []
    | some index ↦ assign x xs index x
  ]

  -- `Array.prototype.withOut`
  unfoldable pub with_out : List A → A → List A
  with_out xs x = filter (λ removed. not (removed == x)) xs

  -- `Array.prototype.safeIndexOf`, with `none` for -1 and for `undefined`
  unfoldable pub safe_index_of : List A → Option A → Option ℕ
  safe_index_of xs none = none
  safe_index_of xs (some x) = find_index? (λ current. current == x) xs

  has-filter : (x y : A) (xs : List A) → has (with_out xs x) y ≡ (not (x == y) && has xs y)
  unfolding has with_out
  has-filter x y [] = ground arith
  has-filter x y (z ∷ zs) = ground (arith, ==_iff z x, ==_iff z y, ==_iff x y, has-filter x y zs)

  -- After `withOut` the element is gone, the others are there as before.
  pub has-with_out : (x y : A) (xs : List A) → has (with_out xs x) y ≡ (not (x == y) && has xs y)
  has-with_out = has-filter

  assign_same : (xs : List A) (x : A) (i : ℕ) → get_elem? xs i ≡ some x → assign x xs i x ≡ xs
  assign_same [] x i h = cc
  assign_same (y ∷ ys) x zero h = ground arith
  assign_same (y ∷ ys) x (suc i) h = ap (◌∷◌ y) (assign_same ys x i h)

  find_index_from-none :
      (n : ℕ) (x : A) (xs : List A)
      → find_index_from n (λ current. current == x) xs ≡ none
      → has xs x ≡ false
  unfolding has
  find_index_from-none n x [] h = refl
  find_index_from-none n x (y ∷ ys) h = ground (arith, find_index_from-none (suc n) x ys)

  find_index_from-some :
      (n i : ℕ) (x : A) (xs : List A)
      → find_index_from n (λ current. current == x) xs ≡ some i
      → has xs x ≡ true
  unfolding has
  find_index_from-some n i x [] h = cc
  find_index_from-some n i x (y ∷ ys) h = ground (arith, find_index_from-some (suc n) i x ys)

  -- `put` changes nothing if an equal element is there, and else adds the element at the end.
  pub put_lem : (xs : List A) (x : A) → put xs x ≡ (if has xs x then xs else xs ++ x ∷ [])
  unfolding put
  put_lem xs x = go (find_index? (λ current. current == x) xs) refl
    where
      go :
          (o : Option ℕ)
          → find_index? (λ current. current == x) xs ≡ o
          → (elim o [ none ↦ xs ++ x ∷ [] | some index ↦ assign x xs index x ])
            ≡ (if has xs x then xs else xs ++ x ∷ [])
      go none q = rw (find_index_from-none 0 x xs q)
      go (some i) q =
          let (j, ij, y, at, same) = find_index_from-holds 0 (λ current. current == x) xs q in
          let here : get_elem? xs i ≡ some x = rw (ij) (ground (arith, ==_iff y x)) in
          rw (find_index_from-some 0 i x xs q) (assign_same xs x i here)
