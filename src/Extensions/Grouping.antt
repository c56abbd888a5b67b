-- ===== src/Extensions/Grouping.antt =====
-- The methods of `Array` in framework/extensions/extensions.ts that build a map: `groupBy`,
-- `groupByMany`, `toMap` and `unique`.
use art_platform.Common.{
  ℕ, suc, ◌≡◌, refl, sym, ap, ◌∙◌, false, ◌||◌, Option, none, some, List, [], ◌∷◌, ◌++◌, map,
  append-nil, append_assoc, arith, if◌then◌else◌, DeepEqual, ◌==◌, ==_iff, filter, Option-cases,
  inl, inr,
}
use mathlib.Core.Path.{ap₂, subst}
use art_platform.Extensions.Maps.{
  keys, values_to_array, to_array, has_key, set_fresh, get, set, get-set, keys-set, Distinct,
  set-Distinct, set_from, new_set,
}

module _ {ℓ κ} {K : Type ℓ} {T : Type κ} ⦃e : DeepEqual K⦄ (functor : T → K) where
  -- The loop of `forEach(item => map.set(functor(item), item))`.
  unfoldable pub group_from : List (K × T) → List T → List (K × T)
  group_from m [] = m
  group_from m (x ∷ xs) = group_from (set (functor x) x m) xs

  unfoldable pub group_by : List T → List (K × T)
  unfolding group_from
  group_by = group_from []

  -- `Array.prototype.unique`; where the source's functor is absent, it is the identity.
  unfoldable pub unique : List T → List T
  unfolding group_by
  unique xs = values_to_array (λ x. x) (group_by xs)

  -- One round of `groupByMany`: `map.get(key)!.push(item)` writes into the array that is there.
  unfoldable pub push_to_group : List (K × List T) → T → List (K × List T)
  push_to_group m x = elim (get (functor x) m) [
    | some group ↦ set (functor x) (group ++ x ∷ []) m
    | none ↦ set (functor x) (x ∷ []) m
  ]

  unfoldable pub group_many_from : List (K × List T) → List T → List (K × List T)
  group_many_from m [] = m
  group_many_from m (x ∷ xs) = group_many_from (push_to_group m x) xs

  unfoldable pub group_by_many : List T → List (K × List T)
  unfolding group_many_from push_to_group
  group_by_many = group_many_from []

  -- The last element with a key.
  abbrev pub last_of : K → Option T → List T → Option T
  last_of k seen [] = seen
  last_of k seen (x ∷ xs) = last_of k (if functor x == k then some x else seen) xs

  get-group_from :
      (k : K) (m : List (K × T)) (xs : List T) → get k (group_from m xs) ≡ last_of k (get k m) xs
  unfolding group_from
  get-group_from k m [] = refl
  get-group_from k m (x ∷ xs) =
      rw (get-group_from k (set (functor x) x m) xs, get-set (functor x) k x m)

  -- `groupBy` keeps the last element of each key.
  pub get-group_by : (k : K) (xs : List T) → get k (group_by xs) ≡ last_of k none xs
  unfolding group_by get
  get-group_by k xs = get-group_from k [] xs

  -- The elements of a key put behind those that are there.
  abbrev pub extend : Option (List T) → List T → Option (List T)
  extend none [] = none
  extend none (x ∷ xs) = some (x ∷ xs)
  extend (some ys) xs = some (ys ++ xs)

  get-push_to_group :
      (k : K) (m : List (K × List T)) (x : T)
      → get k (push_to_group m x) ≡ (if functor x == k then extend (get k m) (x ∷ []) else get k m)
  unfolding push_to_group
  get-push_to_group k m x = elim (Option-cases (get (functor x) m)) [
    | inl new ↦ ground (arith, ==_iff (functor x) k, get-set (functor x) k (x ∷ []) m)
    | inr (g, old) ↦ ground (arith, ==_iff (functor x) k, get-set (functor x) k (g ++ x ∷ []) m)
  ]

  extend-extend :
      (o : Option (List T)) (x : T) (xs : List T)
      → extend (extend o (x ∷ [])) xs ≡ extend o (x ∷ xs)
  extend-extend none x xs = refl
  extend-extend (some ys) x xs = ap some (append_assoc ys (x ∷ []) xs)

  extend-nil : (o : Option (List T)) → extend o [] ≡ o
  extend-nil none = refl
  extend-nil (some ys) = ap some (append-nil ys)

  get-group_many_from :
      (k : K) (m : List (K × List T)) (xs : List T)
      → get k (group_many_from m xs) ≡ extend (get k m) (filter (λ x. functor x == k) xs)
  unfolding group_many_from
  get-group_many_from k m [] = sym (extend-nil (get k m))
  get-group_many_from k m (x ∷ xs) = ground (
    arith,
    get-push_to_group k m x,
    get-group_many_from k (push_to_group m x) xs,
    extend-extend (get k m) x (filter (λ y. functor y == k) xs),
  )

  -- `groupByMany` gives for each key all elements with it, in order, and no entry to other keys.
  pub get-group_by_many :
      (k : K) (xs : List T)
      → get k (group_by_many xs) ≡ extend none (filter (λ x. functor x == k) xs)
  unfolding group_by_many get
  get-group_by_many k xs = get-group_many_from k [] xs

  keys-group_from :
      (m : List (K × T)) (xs : List T) → keys (group_from m xs) ≡ set_from (keys m) (map functor xs)
  unfolding group_from set_from
  keys-group_from m [] = refl
  keys-group_from m (x ∷ xs) =
      keys-group_from (set (functor x) x m) xs
      ∙ ap (λ ks. set_from ks (map functor xs)) (keys-set (functor x) x m)

  -- Each entry stands under the key of its value.
  abbrev Tagged : List (K × T) → Type (ℓ ⊔ κ)
  Tagged [] = Unit
  Tagged ((k, x) ∷ m) = (functor x ≡ k) × Tagged m

  set-Tagged : (x : T) (m : List (K × T)) → Tagged m → Tagged (set (functor x) x m)
  unfolding set
  set-Tagged x [] t = (refl, tt)
  set-Tagged x ((k, y) ∷ m) t = ground (arith, ==_iff k (functor x), set-Tagged x m t.1)

  group_from-Tagged : (m : List (K × T)) (xs : List T) → Tagged m → Tagged (group_from m xs)
  unfolding group_from
  group_from-Tagged m [] t = t
  group_from-Tagged m (x ∷ xs) t = group_from-Tagged (set (functor x) x m) xs (set-Tagged x m t)

  map-values_of_Tagged :
      (m : List (K × T)) → Tagged m → map functor (values_to_array (λ x. x) m) ≡ keys m
  map-values_of_Tagged [] t = refl
  map-values_of_Tagged ((k, x) ∷ m) t = ap₂ ◌∷◌ t.0 (map-values_of_Tagged m t.1)

  -- The keys of `unique xs` are the set of the keys of `xs`: each key once, in the order in which
  -- it first occurs.
  pub map-unique : (xs : List T) → map functor (unique xs) ≡ new_set (map functor xs)
  unfolding unique group_by new_set
  map-unique xs =
      map-values_of_Tagged (group_from [] xs) (group_from-Tagged [] xs tt) ∙ keys-group_from [] xs

-- `Array.prototype.toMap`, whose functor is given the index too.
module _ {ℓ κ μ} {K : Type ℓ} {V : Type κ} {T : Type μ} ⦃e : DeepEqual K⦄
    (functor : T → ℕ → K × V) where
  unfoldable pub to_map_from : ℕ → List (K × V) → List T → List (K × V)
  to_map_from i m [] = m
  to_map_from i m (x ∷ xs) = to_map_from (suc i) (set (functor x i).0 (functor x i).1 m) xs

  unfoldable pub to_map : List T → List (K × V)
  unfolding to_map_from
  to_map = to_map_from 0 []

  to_map_from-Distinct :
      (i : ℕ) (m : List (K × V)) (xs : List T) → Distinct m → Distinct (to_map_from i m xs)
  unfolding to_map_from
  to_map_from-Distinct i m [] d = d
  to_map_from-Distinct i m (x ∷ xs) d =
      to_map_from-Distinct (suc i) (set (functor x i).0 (functor x i).1 m) xs
        (set-Distinct (functor x i).0 (functor x i).1 m d)

  -- No key stands twice in the result of `toMap`.
  pub to_map-Distinct : (xs : List T) → Distinct (to_map xs)
  unfolding to_map
  to_map-Distinct xs = to_map_from-Distinct 0 [] xs tt

-- The entries of a map, put into an array by `toArray` and back by `toMap`.
module _ {ℓ κ} {K : Type ℓ} {V : Type κ} ⦃e : DeepEqual K⦄ where
  has_key-append :
      (k : K) (xs ys : List (K × V)) → has_key k (xs ++ ys) ≡ (has_key k xs || has_key k ys)
  unfolding has_key
  has_key-append k [] ys = refl
  has_key-append k ((j, w) ∷ xs) ys = ground (arith, has_key-append k xs ys)

  fresh_of_Distinct :
      (k : K) (v : V) (xs ys : List (K × V)) → Distinct (xs ++ (k, v) ∷ ys) → has_key k xs ≡ false
  unfolding has_key
  fresh_of_Distinct k v [] ys d = refl
  fresh_of_Distinct k v ((j, w) ∷ xs) ys d = ground (
    arith,
    ==_iff j k,
    ==_iff k j,
    ==_iff k k,
    has_key-append j xs ((k, v) ∷ ys),
    fresh_of_Distinct k v xs ys d.1,
  )

  to_map_from-entries :
      (i : ℕ) (m xs : List (K × V))
      → Distinct (m ++ xs)
      → to_map_from (λ entry index. entry) i m (to_array (λ k v. (k, v)) xs) ≡ m ++ xs
  unfolding to_map_from
  to_map_from-entries i m [] d = sym (append-nil m)
  to_map_from-entries i m ((k, v) ∷ xs) d =
      let whole = append_assoc m ((k, v) ∷ []) xs in
      ap (λ n. to_map_from (λ entry index. entry) (suc i) n (to_array (λ k v. (k, v)) xs))
        (set_fresh k v m (fresh_of_Distinct k v m xs d))
      ∙ to_map_from-entries (suc i) (m ++ (k, v) ∷ []) xs (subst Distinct (sym whole) d)
      ∙ whole

  -- The entries of a map, put into an array by `toArray` and back into a map by `toMap`, are the map
  -- that they came from, in its order.
  pub to_map-to_array :
      (m : List (K × V))
      → Distinct m
      → to_map (λ entry index. entry) (to_array (λ k v. (k, v)) m) ≡ m
  unfolding to_map
  to_map-to_array m d = to_map_from-entries 0 [] m d
