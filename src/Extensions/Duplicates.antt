-- ===== src/Extensions/Duplicates.antt =====
-- `hasDuplicates`, `duplicates` and `crossEquals` of framework/extensions/extensions.ts.
use mathlib.Core.List.{
  Mem, Nodup, Perm, Subset, Nodup-cons, not-mem-nil, mem-cons_self, mem-cons_of_mem,
  eq-or-mem_of_mem-cons, Nodup-nil, nil-subset, cons-subset,
}
use mathlib.Core.Path.{subst}
use mathlib.Core.Nat
use mathlib.Core.List
use mathlib.Core.List.Nodup
use mathlib.Core.List.Subperm
use mathlib.Core.Logic.Or
use art_platform.Common.{
  ◌+◌, ◌≡◌, ◌↔◌, ◌≤◌, refl, sym, ap, ◌∙◌, Bool, true, false, not, ◌&&◌, ◌||◌, Option, none, some,
  List, [], ◌∷◌, map, arith, if◌then◌else◌, DeepEqual, ◌==◌, ==_iff, ==_refl, all, filter, length,
  length-append, length-map, nat_beq, nat_beq_iff, Bool-cases, inl, inr,
}
use art_platform.Extensions.Maps.{contains, add, set_from, new_set, contains-add}
use art_platform.Extensions.Arrays.{has}

-- No element stands twice, by the test of the set.
module _ {ℓ} {A : Type ℓ} ⦃e : DeepEqual A⦄ where
  abbrev pub AllDiffer : List A → Type 0
  AllDiffer [] = Unit
  AllDiffer (x ∷ xs) = (contains x xs ≡ false) × AllDiffer xs

  -- None of `xs` is in the set `s`.
  abbrev Apart : List A → List A → Type 0
  Apart s [] = Unit
  Apart s (x ∷ xs) = (contains x s ≡ false) × Apart s xs

  Apart-add :
      (x : A) (s xs : List A)
      → contains x s ≡ false
      → Apart (add x s) xs ↔ ((contains x xs ≡ false) × Apart s xs)
  unfolding contains
  Apart-add x s [] h = ground arith
  Apart-add x s (y ∷ ys) h =
      ground (arith, ==_iff x y, ==_iff y x, contains-add x y s, Apart-add x s ys h)

  length-add :
      (x : A) (s : List A) → length (add x s) ≡ (if contains x s then length s else length s + 1)
  unfolding add
  length-add x s = ground (arith, length-append s (x ∷ []))

  length-set_from-le : (s xs : List A) → length (set_from s xs) ≤ length s + length xs
  unfolding set_from
  length-set_from-le s [] = omega arith
  length-set_from-le s (x ∷ xs) = ground (arith, length-add x s, length-set_from-le (add x s) xs)

  -- Building the set loses an element exactly where two are equal.
  length-set_from :
      (s xs : List A)
      → (length (set_from s xs) ≡ length s + length xs) ↔ (Apart s xs × AllDiffer xs)
  unfolding set_from
  length-set_from s [] = ground arith
  length-set_from s (x ∷ xs) = elim (Bool-cases (contains x s)) [
    | inl old ↦ ground (arith, length-add x s, length-set_from-le (add x s) xs)
    | inr new ↦ ground (arith, length-add x s, length-set_from (add x s) xs, Apart-add x s xs new)
  ]

  Apart-nil : (xs : List A) → Apart [] xs
  unfolding contains
  Apart-nil [] = tt
  Apart-nil (x ∷ xs) = (refl, Apart-nil xs)

  length-new_set : (xs : List A) → (length (new_set xs) ≡ length xs) ↔ AllDiffer xs
  unfolding new_set
  length-new_set xs = ground (arith, length-set_from [] xs, Apart-nil xs)

module _ {ℓ κ} {K : Type ℓ} {T : Type κ} ⦃e : DeepEqual K⦄ (functor : T → K) where
  -- `Array.prototype.hasDuplicates`; an absent functor is the identity.
  unfoldable pub has_duplicates : List T → Bool
  has_duplicates xs = not (nat_beq (length (new_set (map functor xs))) (length xs))

  -- `Array.prototype.duplicates`
  unfoldable pub duplicates : List T → List T
  duplicates xs =
      let filtered = new_set (map functor xs) in
      if nat_beq (length filtered) (length xs)
      then []
      else filter (λ x. contains (functor x) filtered) xs

  -- `hasDuplicates` is false exactly if no two elements have the same key.
  pub has_duplicates_iff : (xs : List T) → (has_duplicates xs ≡ false) ↔ AllDiffer (map functor xs)
  unfolding has_duplicates
  has_duplicates_iff xs = ground (
    arith,
    length-new_set (map functor xs),
    length-map functor xs,
    nat_beq_iff (length (new_set (map functor xs))) (length xs),
  )

  contains-set_from :
      (b : K) (s ks : List K) → contains b (set_from s ks) ≡ (contains b s || contains b ks)
  unfolding set_from contains
  contains-set_from b s [] = ground arith
  contains-set_from b s (k ∷ ks) =
      ground (arith, contains-add k b s, contains-set_from b (add k s) ks)

  filter_of_seen :
      (p : K → Bool) (xs : List T)
      → ((k : K) → contains k (map functor xs) ≡ true → p k ≡ true)
      → filter (λ x. p (functor x)) xs ≡ xs
  unfolding contains
  filter_of_seen p [] h = refl
  filter_of_seen p (x ∷ xs) h =
      rw (h (functor x) (rw (==_refl (functor x))))
        (ap (◌∷◌ x) (filter_of_seen p xs (λ k m. h k (ground (arith, m)))))

  -- `duplicates` returns the whole array as soon as two elements have the same key, and the empty
  -- array otherwise: elements whose key occurs once are returned too.
  pub duplicates_lem : (xs : List T) → duplicates xs ≡ (if has_duplicates xs then xs else [])
  unfolding duplicates has_duplicates new_set contains
  duplicates_lem xs = ground (
    arith,
    filter_of_seen (λ k. contains k (set_from [] (map functor xs))) xs
        (λ k m. contains-set_from k [] (map functor xs) ∙ m),
  )

-- `hasDuplicates` without a functor.
pub has_duplicates-id_iff {ℓ} :
    {A : Type ℓ} ⦃e : DeepEqual A⦄ (xs : List A)
    → (has_duplicates (λ x. x) xs ≡ false) ↔ AllDiffer xs
has_duplicates-id_iff {A = A} xs =
    subst (λ ys. (has_duplicates (λ x. x) xs ≡ false) ↔ AllDiffer ys) (map-id xs)
      (has_duplicates_iff (λ x. x) xs)
  where
    map-id : (ys : List A) → map (λ x. x) ys ≡ ys
    map-id [] = refl
    map-id (y ∷ ys) = ap (◌∷◌ y) (map-id ys)

-- `crossEquals`; `none` as a result is the `undefined` of two absent arrays.
module _ {ℓ} {A : Type ℓ} ⦃e : DeepEqual A⦄ where
  unfoldable pub cross_equals : Option (List A) → Option (List A) → Option Bool
  cross_equals none none = none
  cross_equals none (some right) = some false
  cross_equals (some left) none = some false
  cross_equals (some left) (some right) =
      some (nat_beq (length left) (length right) && all (has right) left)

  contains→Mem : (x : A) (xs : List A) → contains x xs ≡ true → Mem x xs
  unfolding contains
  contains→Mem x [] h = absurd (cc)
  contains→Mem x (y ∷ ys) h = elim (Bool-cases (y == x)) [
    | inl same ↦ rw ((==_iff y x).0 same) mem-cons_self
    | inr other ↦ mem-cons_of_mem y (contains→Mem x ys (ground arith))
  ]

  has-contains : (x : A) (xs : List A) → has xs x ≡ contains x xs
  unfolding has contains
  has-contains x [] = refl
  has-contains x (y ∷ ys) = ground (arith, has-contains x ys)

  Mem→contains : (x : A) (xs : List A) → Mem x xs → contains x xs ≡ true
  unfolding contains
  Mem→contains x [] m = absurd (not-mem-nil m)
  Mem→contains x (y ∷ ys) m =
      Or.elim (hlevel) (eq-or-mem_of_mem-cons m) (λ same. ground (arith, ==_iff y x))
        (λ later. ground (arith, Mem→contains x ys later))

  AllDiffer→Nodup : (xs : List A) → AllDiffer xs → Nodup xs
  AllDiffer→Nodup [] d = Nodup-nil
  AllDiffer→Nodup (x ∷ xs) d =
      Nodup-cons.1 ((λ m. cc (Mem→contains x xs m)), AllDiffer→Nodup xs d.1)

  same_length : (xs ys : List A) → length xs ≡ length ys → List.length xs ≡ List.length ys
  same_length [] [] h = refl
  same_length [] (y ∷ ys) h = absurd (omega arith)
  same_length (x ∷ xs) [] h = absurd (omega arith)
  same_length (x ∷ xs) (y ∷ ys) h = ap Nat.suc (same_length xs ys (omega arith))

  all-contains→Subset : (xs ys : List A) → all (has ys) xs ≡ true → Subset xs ys
  all-contains→Subset [] ys h = nil-subset ys
  all-contains→Subset (x ∷ xs) ys h = cons-subset.1 (
    contains→Mem x ys (sym (has-contains x ys) ∙ (ground arith)),
    all-contains→Subset xs ys (ground arith),
  )

  -- Where no element of the left array stands twice, `crossEquals` holds only of arrays with the
  -- same elements, each as often.
  pub cross_equals-perm :
      (left right : List A)
      → AllDiffer left
      → cross_equals (some left) (some right) ≡ some true
      → Perm left right
  unfolding cross_equals
  cross_equals-perm left right d h =
      let lengths : length left ≡ length right =
        ground (arith, nat_beq_iff (length left) (length right)) in
      let seen : all (has right) left ≡ true = ground arith in
      Subperm.perm_of_length_le
        (Nodup.subperm (AllDiffer→Nodup left d) (all-contains→Subset left right seen))
        (Nat.le_of_eq (sym (same_length left right lengths)))
