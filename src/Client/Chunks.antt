-- ===== src/Client/Chunks.antt =====
-- The flowable of `chunkedRequest`: the socket requests a number of chunks at a time, and the
-- loop of `request` shifts them out of the array.
use mathlib.Core.Path.{ap₂}
use art_platform.Common.{
  ℕ, zero, suc, ◌+◌, ◌≡◌, refl, ap, Bool, true, false, ◌||◌, List, [], ◌∷◌, ◌++◌, arith, length,
  length-drop, sym, ◌∙◌, take, drop, any, any-append, ltb,
}

-- What the subscriber of the flowable is told.
pub data Signal {ℓ} (C : Type ℓ) : Type ℓ where
  next : C → Signal C
  complete : Signal C

abbrev pub sum : List ℕ → ℕ
sum [] = 0
sum (n ∷ ns) = n + sum ns

module _ {ℓ} {C : Type ℓ} where
  -- `request`: the chunks left, and the signals.
  unfoldable pub request : ℕ → List C → List C × List (Signal C)
  request zero chunks = (chunks, [])
  request (suc count) [] = ([], complete ∷ [])
  request (suc count) (c ∷ chunks) = let rest = request count chunks in (rest.0, next c ∷ rest.1)

  -- One request after the other.
  unfoldable pub requests : List ℕ → List C → List C × List (Signal C)
  unfolding request
  requests [] chunks = (chunks, [])
  requests (count ∷ counts) chunks =
      let first = request count chunks in
      let rest = requests counts first.0 in (rest.0, first.1 ++ rest.1)

  abbrev pub sent_chunks : List (Signal C) → List C
  sent_chunks [] = []
  sent_chunks (next c ∷ signals) = c ∷ sent_chunks signals
  sent_chunks (complete ∷ signals) = sent_chunks signals

  abbrev pub is_complete : Signal C → Bool
  is_complete (next c) = false
  is_complete complete = true

  sent_chunks-append :
      (xs ys : List (Signal C)) → sent_chunks (xs ++ ys) ≡ sent_chunks xs ++ sent_chunks ys
  sent_chunks-append [] ys = refl
  sent_chunks-append (next c ∷ xs) ys = ap (◌∷◌ c) (sent_chunks-append xs ys)
  sent_chunks-append (complete ∷ xs) ys = sent_chunks-append xs ys

  drop-empty : (n : ℕ) → drop {A = C} n [] ≡ []
  drop-empty zero = refl
  drop-empty (suc n) = refl

  take-empty : (n : ℕ) → take {A = C} n [] ≡ []
  take-empty zero = refl
  take-empty (suc n) = refl

  drop-add : (m n : ℕ) (xs : List C) → drop (m + n) xs ≡ drop n (drop m xs)
  drop-add zero n xs = let e : 0 + n ≡ n = omega arith in ap (λ k. drop k xs) e
  drop-add (suc m) n [] = drop-empty (suc m + n) ∙ sym (drop-empty n)
  drop-add (suc m) n (x ∷ xs) =
      let e : suc m + n ≡ suc (m + n) = omega arith in ap (λ k. drop k (x ∷ xs)) e ∙ drop-add m n xs

  take-add : (m n : ℕ) (xs : List C) → take (m + n) xs ≡ take m xs ++ take n (drop m xs)
  take-add zero n xs = let e : 0 + n ≡ n = omega arith in ap (λ k. take k xs) e
  take-add (suc m) n [] = take-empty (suc m + n) ∙ sym (take-empty n)
  take-add (suc m) n (x ∷ xs) =
      let e : suc m + n ≡ suc (m + n) = omega arith in
      ap (λ k. take k (x ∷ xs)) e ∙ ap (◌∷◌ x) (take-add m n xs)

  request_lem :
      (count : ℕ) (chunks : List C)
      → ((request count chunks).0 ≡ drop count chunks)
        × (sent_chunks (request count chunks).1 ≡ take count chunks)
        × (any is_complete (request count chunks).1 ≡ ltb (length chunks) count)
  unfolding request
  request_lem zero chunks = (refl, refl, ground arith)
  request_lem (suc count) [] = (refl, refl, ground arith)
  request_lem (suc count) (c ∷ chunks) =
      let (left, values, ends) = request_lem count chunks in
      (left, ap (◌∷◌ c) values, ends ∙ (ground arith))

  -- However the socket splits its requests, the chunks that it is sent are, in order and each once,
  -- the first of the array, as many as it requested in all; those that it did not request are left;
  -- and the end is signalled exactly if more was requested than there is.
  pub requests_lem :
      (counts : List ℕ) (chunks : List C)
      → ((requests counts chunks).0 ≡ drop (sum counts) chunks)
        × (sent_chunks (requests counts chunks).1 ≡ take (sum counts) chunks)
        × (any is_complete (requests counts chunks).1 ≡ ltb (length chunks) (sum counts))
  unfolding requests
  requests_lem [] chunks = (refl, refl, ground arith)
  requests_lem (count ∷ counts) chunks =
      let (left, values, ends) = request_lem count chunks in
      let (left', values', ends') = requests_lem counts (request count chunks).0 in
      (
        left' ∙ ap (drop (sum counts)) left ∙ sym (drop-add count (sum counts) chunks),
        sent_chunks-append (request count chunks).1 (requests counts (request count chunks).0).1
            ∙ ap₂ ◌++◌ values (values' ∙ ap (take (sum counts)) left)
            ∙ sym (take-add count (sum counts) chunks),
        any-append is_complete (request count chunks).1 (requests counts (request count chunks).0).1
            ∙ ap₂ ◌||◌ ends (ends' ∙ ap (λ xs. ltb (length xs) (sum counts)) left)
            ∙ (ground (arith, length-drop count chunks)),
      )
