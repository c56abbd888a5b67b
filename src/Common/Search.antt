-- ===== src/Common/Search.antt =====
-- The searching methods of arrays, over a Boolean predicate.
use Prim.Native.Nat.{ℕ, suc, ◌+◌, ◌≤◌}
use mathlib.Core.Path.{◌≡◌, refl}
use mathlib.Core.Logic.{inl, inr}
use mathlib.Core.Bool.{Bool, true, false, ◌&&◌, ◌||◌}
use mathlib.Core.List.{List, [], ◌∷◌, ◌++◌}
use mathlib.Core.Option.{Option, none, some}
use native.Mathlib.Omega.{arith}
use art_platform.Common.Tests.{if◌then◌else◌, Bool-cases}
use art_platform.Common.Lists.{length, get_elem?}

module _ {ℓ} {A : Type ℓ} where
  -- `xs.some(p)`
  abbrev pub any : (A → Bool) → List A → Bool
  any p [] = false
  any p (x ∷ xs) = p x || any p xs

  -- `xs.every(p)`
  abbrev pub all : (A → Bool) → List A → Bool
  all p [] = true
  all p (x ∷ xs) = p x && all p xs

  abbrev pub filter : (A → Bool) → List A → List A
  filter p [] = []
  filter p (x ∷ xs) = if p x then x ∷ filter p xs else filter p xs

  abbrev pub find? : (A → Bool) → List A → Option A
  find? p [] = none
  find? p (x ∷ xs) = if p x then some x else find? p xs

  -- `xs.findIndex(p)`, with `none` for -1
  abbrev pub find_index_from : ℕ → (A → Bool) → List A → Option ℕ
  find_index_from i p [] = none
  find_index_from i p (x ∷ xs) = if p x then some i else find_index_from (suc i) p xs

  abbrev pub find_index? : (A → Bool) → List A → Option ℕ
  find_index? = find_index_from 0

  -- Every element satisfies `P`.
  abbrev pub All {κ} : (A → Type κ) → List A → Type κ
  All P [] = Unit
  All P (x ∷ xs) = P x × All P xs

  pub any-append : (p : A → Bool) (xs ys : List A) → any p (xs ++ ys) ≡ (any p xs || any p ys)
  any-append p [] ys = refl
  any-append p (x ∷ xs) ys = ground (arith, any-append p xs ys)

  pub filter-append :
      (p : A → Bool) (xs ys : List A) → filter p (xs ++ ys) ≡ filter p xs ++ filter p ys
  filter-append p [] ys = refl
  filter-append p (x ∷ xs) ys = ground (arith, filter-append p xs ys)

  pub length-filter-le : (p : A → Bool) (xs : List A) → length (filter p xs) ≤ length xs
  length-filter-le p [] = omega arith
  length-filter-le p (x ∷ xs) = ground (arith, length-filter-le p xs)

  pub any-filter : (p q : A → Bool) (xs : List A) → any p (filter q xs) ≡ any (λ x. q x && p x) xs
  any-filter p q [] = refl
  any-filter p q (x ∷ xs) = ground (arith, any-filter p q xs)

  pub find?-holds : (p : A → Bool) (xs : List A) {x : A} → find? p xs ≡ some x → p x ≡ true
  find?-holds p [] h = cc
  find?-holds p (y ∷ ys) {x} h = ground (arith, find?-holds p ys {x = x})

  pub find?-append :
      (p : A → Bool) (xs ys : List A)
      → find? p (xs ++ ys) ≡ elim (find? p xs) [ some x ↦ some x | none ↦ find? p ys ]
  find?-append p [] ys = refl
  find?-append p (x ∷ xs) ys = ground (arith, find?-append p xs ys)

  -- What `findIndex` returns is the index of an element that satisfies the predicate.
  pub find_index_from-holds :
      (n : ℕ) (p : A → Bool) (xs : List A) {i : ℕ}
      → find_index_from n p xs ≡ some i
      → (j : ℕ) × (i ≡ n + j) × (x : A) × (get_elem? xs j ≡ some x) × (p x ≡ true)
  find_index_from-holds n p [] h = cc
  find_index_from-holds n p (x ∷ xs) {i} h = elim (Bool-cases (p x)) [
    | inl yes_x ↦ (0, ground arith, x, refl, yes_x)
    | inr no_x ↦
        let (j, ij, y, at, py) = find_index_from-holds (suc n) p xs (rw no_x at h) in
        (suc j, omega arith, y, at, py)
  ]
