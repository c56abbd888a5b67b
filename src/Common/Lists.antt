-- ===== src/Common/Lists.antt =====
-- Arrays as lists measured by native numbers. `get_elem? xs i` is `xs[i]`, `none` for `undefined`.
use Prim.Native.Nat.{ℕ, zero, suc, ◌+◌, ◌-◌, ◌≤◌, ◌<◌}
use mathlib.Core.Path.{subst, ◌≡◌, refl, ap}
use mathlib.Core.Logic.{◌≢◌}
use mathlib.Core.List.Perm
use mathlib.Core.List.{Perm, List, [], ◌∷◌, ◌++◌, map}
use mathlib.Core.Option
use mathlib.Core.Option.{Option, none, some}
use native.Mathlib.Omega.{arith}

module _ {ℓ} {A : Type ℓ} where
  abbrev pub length : List A → ℕ
  length [] = 0
  length (x ∷ xs) = suc (length xs)

  abbrev pub get_elem? : List A → ℕ → Option A
  get_elem? [] i = none
  get_elem? (x ∷ xs) zero = some x
  get_elem? (x ∷ xs) (suc i) = get_elem? xs i

  abbrev pub take : ℕ → List A → List A
  take zero xs = []
  take (suc n) [] = []
  take (suc n) (x ∷ xs) = x ∷ take n xs

  abbrev pub drop : ℕ → List A → List A
  drop zero xs = xs
  drop (suc n) [] = []
  drop (suc n) (x ∷ xs) = drop n xs

  pub length-append : (xs ys : List A) → length (xs ++ ys) ≡ length xs + length ys
  length-append [] ys = omega arith
  length-append (x ∷ xs) ys = omega (arith, length-append xs ys)

  pub take-append-drop : (n : ℕ) (xs : List A) → take n xs ++ drop n xs ≡ xs
  take-append-drop zero xs = refl
  take-append-drop (suc n) [] = refl
  take-append-drop (suc n) (x ∷ xs) = ap (◌∷◌ x) (take-append-drop n xs)

  pub length-drop : (n : ℕ) (xs : List A) → length (drop n xs) ≡ length xs - n
  length-drop zero xs = omega arith
  length-drop (suc n) [] = omega arith
  length-drop (suc n) (x ∷ xs) = omega (arith, length-drop n xs)

  pub get_elem?-append_left :
      (xs ys : List A) (i : ℕ) → i < length xs → get_elem? (xs ++ ys) i ≡ get_elem? xs i
  get_elem?-append_left [] ys i h = elim h [ ]
  get_elem?-append_left (x ∷ xs) ys zero h = refl
  get_elem?-append_left (x ∷ xs) ys (suc i) h = get_elem?-append_left xs ys i (omega arith)

  pub get_elem?-append_end : (xs : List A) (y : A) → get_elem? (xs ++ y ∷ []) (length xs) ≡ some y
  get_elem?-append_end [] y = refl
  get_elem?-append_end (x ∷ xs) y = get_elem?-append_end xs y

  -- An element that is found stands at an index below the length.
  pub get_elem?-lt : (xs : List A) (i : ℕ) {x : A} → get_elem? xs i ≡ some x → i < length xs
  get_elem?-lt [] i h = cc
  get_elem?-lt (x ∷ xs) zero h = omega arith
  get_elem?-lt (x ∷ xs) (suc i) h = omega (arith, get_elem?-lt xs i h)

  -- `xs[i] = v`: past the end the array grows, and the holes hold `gap`.
  abbrev pub assign : A → List A → ℕ → A → List A
  assign gap [] zero v = v ∷ []
  assign gap [] (suc i) v = gap ∷ assign gap [] i v
  assign gap (x ∷ xs) zero v = v ∷ xs
  assign gap (x ∷ xs) (suc i) v = x ∷ assign gap xs i v

  -- The list without the element at an index.
  abbrev pub remove_at : ℕ → List A → List A
  remove_at i [] = []
  remove_at zero (x ∷ xs) = xs
  remove_at (suc i) (x ∷ xs) = x ∷ remove_at i xs

  pub remove_at-perm :
      (i : ℕ) (xs : List A) (x : A) → get_elem? xs i ≡ some x → Perm xs (x ∷ remove_at i xs)
  remove_at-perm i [] x h = absurd (cc)
  remove_at-perm zero (y ∷ xs) x h =
      let same : y ≡ x = ground (arith, h) in subst (λ z. Perm (y ∷ xs) (z ∷ xs)) same Perm.rfl
  remove_at-perm (suc i) (y ∷ xs) x h =
      Perm.trans (Perm.cons y (remove_at-perm i xs x h)) (Perm.swap x y (remove_at i xs))

  pub length-assign-le :
      (gap : A) (xs : List A) (i : ℕ) (v : A) → length xs ≤ length (assign gap xs i v)
  length-assign-le gap [] i v = omega arith
  length-assign-le gap (x ∷ xs) zero v = omega arith
  length-assign-le gap (x ∷ xs) (suc i) v = omega (arith, length-assign-le gap xs i v)

  pub get_elem?-assign_self :
      (gap : A) (xs : List A) (i : ℕ) (v : A) → get_elem? (assign gap xs i v) i ≡ some v
  get_elem?-assign_self gap [] zero v = refl
  get_elem?-assign_self gap [] (suc i) v = get_elem?-assign_self gap [] i v
  get_elem?-assign_self gap (x ∷ xs) zero v = refl
  get_elem?-assign_self gap (x ∷ xs) (suc i) v = get_elem?-assign_self gap xs i v

  pub get_elem?-assign_ne :
      (gap : A) (xs : List A) (i j : ℕ) (v : A)
      → i ≢ j
      → j < length xs
      → get_elem? (assign gap xs i v) j ≡ get_elem? xs j
  get_elem?-assign_ne gap [] i j v h lt = absurd (omega arith)
  get_elem?-assign_ne gap (x ∷ xs) zero zero v h lt = absurd (h refl)
  get_elem?-assign_ne gap (x ∷ xs) zero (suc j) v h lt = refl
  get_elem?-assign_ne gap (x ∷ xs) (suc i) zero v h lt = refl
  get_elem?-assign_ne gap (x ∷ xs) (suc i) (suc j) v h lt =
      get_elem?-assign_ne gap xs i j v (λ e. h (ap suc e)) (omega arith)

module _ {ℓ κ} {A : Type ℓ} {B : Type κ} where
  pub length-map : (f : A → B) (xs : List A) → length (map f xs) ≡ length xs
  length-map f [] = refl
  length-map f (x ∷ xs) = ap suc (length-map f xs)

  pub get_elem?-map :
      (f : A → B) (xs : List A) (i : ℕ) → get_elem? (map f xs) i ≡ Option.map f (get_elem? xs i)
  get_elem?-map f [] i = refl
  get_elem?-map f (x ∷ xs) zero = refl
  get_elem?-map f (x ∷ xs) (suc i) = get_elem?-map f xs i

module _ {ℓ} {A : Type ℓ} where
  abbrev pub replicate : ℕ → A → List A
  replicate zero a = []
  replicate (suc n) a = a ∷ replicate n a
