-- ===== src/Widget/Collection/Given.antt =====
-- A collection that is made from given ids.
use mathlib.Core.Path.{subst}
use art_platform.Common.{
  ℕ, ◌+◌, ◌≡◌, ◌↔◌, ◌≢◌, ◌<◌, ◌≤◌, sym, Bool, true, false, none, some, List, [], ◌∷◌, arith,
  DeepEqual, All, all, leb, find?, find?-holds, Option-cases, Bool-cases, inl, inr,
}
use art_platform.Widget.Collection.Defs.{
  Collection, CollectionItem, first_id, add_item, add_items, managed_collection, new_collection,
}
use art_platform.Widget.Collection.Ids.{
  WellFormed, All-end, All-weaken, add_item_items, add_item-WellFormed,
}

all-leb : (m : ℕ) (xs : List ℕ) → (all (λ x. leb x m) xs ≡ true) ↔ All (λ x. x ≤ m) xs
all-leb m [] = ground arith
all-leb m (x ∷ xs) = ground (arith, all-leb m xs)

All-le_trans : (m n : ℕ) (xs : List ℕ) → m ≤ n → All (λ x. x ≤ m) xs → All (λ x. x ≤ n) xs
All-le_trans m n [] le h = tt
All-le_trans m n (x ∷ xs) le h = (omega (arith, h.0), All-le_trans m n xs le h.1)

-- A list that is not empty has a greatest element: what no element satisfies, it does not either.
greatest :
    (p : ℕ → Bool) (x : ℕ) (xs : List ℕ)
    → All (λ y. p y ≡ false) (x ∷ xs)
    → (m : ℕ) × (p m ≡ false) × All (λ y. y ≤ m) (x ∷ xs)
greatest p x [] h = (x, h.0, (omega arith, tt))
greatest p x (y ∷ xs) h =
    let (m, fails, bounds) = greatest p y xs h.1 in
    elim (Bool-cases (leb x m)) [
      | inl below ↦ (m, fails, (ground arith, bounds))
      | inr above ↦ (x, h.0, (omega arith, All-le_trans m x (y ∷ xs) (ground arith) bounds))
    ]

find?-none : (p : ℕ → Bool) (xs : List ℕ) → find? p xs ≡ none → All (λ y. p y ≡ false) xs
find?-none p [] h = tt
find?-none p (x ∷ xs) h = elim (Bool-cases (p x)) [
  | inl holds ↦ absurd (ground arith)
  | inr fails ↦ (fails, find?-none p xs (ground arith))
]

All-lt_suc : (m : ℕ) (xs : List ℕ) → All (λ x. x ≤ m) xs → All (λ x. x < m + 1) xs
All-lt_suc m [] h = tt
All-lt_suc m (x ∷ xs) h = (omega (arith, h.0), All-lt_suc m xs h.1)

first_id_found :
    (ids : List ℕ) (m : ℕ)
    → find? (λ id. all (λ less_than. leb less_than id) ids) ids ≡ some m
    → first_id ids ≡ m + 1
unfolding first_id
first_id_found ids m h = ground (arith, h)

-- The first id of the sequence is above all ids that are given.
first_id_above : (ids : List ℕ) → All (λ i. i < first_id ids) ids
first_id_above [] = tt
first_id_above (x ∷ xs) = elim (Option-cases (find? is_greatest (x ∷ xs))) [
  | inl missing ↦
      let (m, fails, bounds) =
        greatest is_greatest x xs (find?-none is_greatest (x ∷ xs) missing) in
      absurd (ground (arith, all-leb m (x ∷ xs)))
  | inr (m, found) ↦
      subst (λ n. All (λ i. i < n) (x ∷ xs)) (sym (first_id_found (x ∷ xs) m found))
        (All-lt_suc m (x ∷ xs) ((all-leb m (x ∷ xs)).0 (find?-holds is_greatest (x ∷ xs) found)))
]
  where
    is_greatest : ℕ → Bool
    is_greatest id = all (λ less_than. leb less_than id) (x ∷ xs)

-- No number stands twice.
abbrev pub DistinctNumbers : List ℕ → Type 0
DistinctNumbers [] = Unit
DistinctNumbers (i ∷ ids) = All (λ j. i ≢ j) ids × DistinctNumbers ids

module _ {ℓ} {W L V : Type ℓ} ⦃e : DeepEqual V⦄ (invalid : W → Bool) (value : W → V) where
  add_items-WellFormed :
      (ids : List ℕ) (factory : ℕ → W) (c : Collection W L)
      → WellFormed c
      → DistinctNumbers ids
      → All (λ x. All (λ i. x.id ≢ i) ids) c.items
      → All (λ i. i < c.sequence) ids
      → WellFormed (add_items invalid value ids factory c).0
  unfolding add_items
  add_items-WellFormed [] factory c w d fresh below = w
  add_items-WellFormed (i ∷ ids) factory c w d fresh below =
      let new_item : CollectionItem W = record { id = i; widget = factory i } in
      let c' : Collection W L = (add_item invalid value i (factory i) c).0 in
      let added = add_item_items invalid value i (factory i) c in
      add_items-WellFormed ids factory c'
        (add_item-WellFormed invalid value i (factory i) c w
          (All-weaken (λ x. All (λ j. x.id ≢ j) (i ∷ ids)) (λ x. x.id ≢ i) c.items (λ x h. h.0)
            fresh)
          below.0)
        d.1
        (subst (All (λ x. All (λ j. x.id ≢ j) ids)) (sym added.0) (
          All-end (λ x. All (λ j. x.id ≢ j) ids) c.items new_item
            (All-weaken (λ x. All (λ j. x.id ≢ j) (i ∷ ids)) (λ x. All (λ j. x.id ≢ j) ids) c.items
              (λ x h. h.1) fresh)
            d.0))
        (subst (λ n. All (λ j. j < n) ids) (sym added.1) below.1)

-- The collection that is made from distinct ids has items with distinct ids, and its sequence
-- never gives one of them again.
pub managed_collection-WellFormed {ℓ} :
    {W V : Type ℓ} (L : Type ℓ) ⦃e : DeepEqual V⦄ (invalid : W → Bool) (value : W → V)
    (ids : List ℕ) (factory : ℕ → W)
    → DistinctNumbers ids
    → WellFormed {L = L} (managed_collection invalid value ids factory).0
unfolding managed_collection new_collection
managed_collection-WellFormed L invalid value ids factory d =
    add_items-WellFormed invalid value ids factory (new_collection ids) (tt, tt) d tt
      (first_id_above ids)
