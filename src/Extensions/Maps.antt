-- ===== src/Extensions/Maps.antt =====
-- `Map` and `Set` with the methods that framework/extensions/extensions.ts adds. A map is the list
-- of its entries in insertion order: writing to a key that is there keeps its place, a new key goes
-- to the end. A method that writes to `this` returns the map after the write beside its result.
use art_platform.Common.{
  ◌≡◌, ◌≢◌, refl, Bool, true, false, not, ◌&&◌, ◌||◌, Option, none, some, List, [], ◌∷◌, ◌++◌, map,
  arith, if◌then◌else◌, DeepEqual, ◌==◌, ==_iff, nat_beq, length, any, filter,
}

module _ {ℓ κ} {K : Type ℓ} {V : Type κ} where
  abbrev pub keys : List (K × V) → List K
  keys = map (λ e. e.0)

  -- `Map.prototype.valuesToArray` with a functor
  abbrev pub values_to_array {μ} : {R : Type μ} → (V → R) → List (K × V) → List R
  values_to_array f = map (λ e. f e.1)

  -- `Map.prototype.toArray`
  abbrev pub to_array {μ} : {R : Type μ} → (K → V → R) → List (K × V) → List R
  to_array f = map (λ e. f e.0 e.1)

  -- `Map.prototype.isEmpty`
  abbrev pub is_empty : List (K × V) → Bool
  is_empty m = nat_beq (length m) 0

  -- `Map.prototype.some`
  abbrev pub some_entry : (K → V → Bool) → List (K × V) → Bool
  some_entry f = any (λ e. f e.0 e.1)

  -- `Map.prototype.filterEntries`
  abbrev pub filter_entries : (K → V → Bool) → List (K × V) → List (K × V)
  filter_entries f = filter (λ e. f e.0 e.1)

  -- `Map.prototype.filterValues`
  abbrev pub filter_values : (V → Bool) → List (K × V) → List (K × V)
  filter_values f = filter (λ e. f e.1)

  -- `Map.prototype.filterKeys`
  abbrev pub filter_keys : (K → Bool) → List (K × V) → List (K × V)
  filter_keys f = filter (λ e. f e.0)

module _ {ℓ κ} {K : Type ℓ} {V : Type κ} ⦃e : DeepEqual K⦄ where
  -- The language's `get`, `has`, `set` and `delete`.
  unfoldable pub get : K → List (K × V) → Option V
  get k [] = none
  get k ((j, v) ∷ m) = if j == k then some v else get k m

  unfoldable pub has_key : K → List (K × V) → Bool
  has_key k [] = false
  has_key k ((j, v) ∷ m) = (j == k) || has_key k m

  unfoldable pub set : K → V → List (K × V) → List (K × V)
  set k v [] = (k, v) ∷ []
  set k v ((j, w) ∷ m) = if j == k then (j, v) ∷ m else (j, w) ∷ set k v m

  unfoldable pub delete : K → List (K × V) → List (K × V)
  delete k [] = []
  delete k ((j, w) ∷ m) = if j == k then m else (j, w) ∷ delete k m

  -- `Map.prototype.with`: `this` is written to, and a copy of it is returned.
  unfoldable pub with_entry : K → V → List (K × V) → List (K × V) × List (K × V)
  with_entry k v m = let this = set k v m in (this, this)

  -- `Map.prototype.without`
  unfoldable pub without_key : K → List (K × V) → List (K × V) × List (K × V)
  without_key k m = let this = delete k m in (this, this)

  -- No key stands twice.
  abbrev pub Distinct : List (K × V) → Type 0
  Distinct [] = Unit
  Distinct ((j, v) ∷ m) = (has_key j m ≡ false) × Distinct m

  pub get-set :
      (k j : K) (v : V) (m : List (K × V))
      → get j (set k v m) ≡ (if k == j then some v else get j m)
  unfolding get set
  get-set k j v [] = refl
  get-set k j v ((i, w) ∷ m) = ground (arith, ==_iff k j, ==_iff i k, ==_iff i j, get-set k j v m)

  pub has_key-set :
      (k j : K) (v : V) (m : List (K × V)) → has_key j (set k v m) ≡ ((k == j) || has_key j m)
  unfolding has_key set
  has_key-set k j v [] = refl
  has_key-set k j v ((i, w) ∷ m) =
      ground (arith, ==_iff k j, ==_iff i k, ==_iff i j, has_key-set k j v m)

  pub set-Distinct : (k : K) (v : V) (m : List (K × V)) → Distinct m → Distinct (set k v m)
  unfolding set has_key
  set-Distinct k v [] d = (refl, tt)
  set-Distinct k v ((i, w) ∷ m) d =
      ground (arith, ==_iff i k, ==_iff k i, has_key-set k i v m, set-Distinct k v m d.1)

  pub get_of_no_key : (k : K) (m : List (K × V)) → has_key k m ≡ false → get k m ≡ none
  unfolding get has_key
  get_of_no_key k [] h = refl
  get_of_no_key k ((i, w) ∷ m) h = ground (arith, get_of_no_key k m)

  pub get_of_key : (k : K) (m : List (K × V)) → has_key k m ≡ true → get k m ≢ none
  unfolding get has_key
  get_of_key k [] h = λ q. cc
  get_of_key k ((i, w) ∷ m) h = ground (arith, get_of_key k m)

  has_key-delete_ne :
      (k j : K) (m : List (K × V)) → has_key j m ≡ false → has_key j (delete k m) ≡ false
  unfolding has_key delete
  has_key-delete_ne k j [] h = refl
  has_key-delete_ne k j ((i, w) ∷ m) h = ground (arith, has_key-delete_ne k j m)

  pub delete-Distinct : (k : K) (m : List (K × V)) → Distinct m → Distinct (delete k m)
  unfolding delete
  delete-Distinct k [] d = tt
  delete-Distinct k ((i, w) ∷ m) d =
      ground (arith, has_key-delete_ne k i m d.0, delete-Distinct k m d.1)

  pub get-delete :
      (k j : K) (m : List (K × V))
      → Distinct m
      → get j (delete k m) ≡ (if k == j then none else get j m)
  unfolding get delete has_key
  get-delete k j [] d = ground arith
  get-delete k j ((i, w) ∷ m) d =
      ground (arith, ==_iff k j, ==_iff i k, ==_iff i j, get_of_no_key j m, get-delete k j m d.1)

  -- Whatever is written by `with` is what a later `get` reads, the other keys read as before, the
  -- copy equals the receiver, and the keys stay distinct.
  pub get-with_entry :
      (k j : K) (v : V) (m : List (K × V))
      → Distinct m
      → let (this, copy) = with_entry k v m in
        (get j copy ≡ (if k == j then some v else get j m)) × (this ≡ copy) × Distinct copy
  unfolding with_entry
  get-with_entry k j v m d = (get-set k j v m, refl, set-Distinct k v m d)

  -- `without` hides its key and nothing else, in the receiver as in the copy.
  pub get-without_key :
      (k j : K) (m : List (K × V))
      → Distinct m
      → let (this, copy) = without_key k m in
        (get j copy ≡ (if k == j then none else get j m)) × (this ≡ copy) × Distinct copy
  unfolding without_key
  get-without_key k j m d = (get-delete k j m d, refl, delete-Distinct k m d)

-- A `Set` is the list of its elements in insertion order.
module _ {ℓ} {A : Type ℓ} ⦃e : DeepEqual A⦄ where
  unfoldable pub contains : A → List A → Bool
  contains a [] = false
  contains a (x ∷ xs) = (x == a) || contains a xs

  unfoldable pub add : A → List A → List A
  add a xs = if contains a xs then xs else xs ++ a ∷ []

  unfoldable pub remove : A → List A → List A
  remove a [] = []
  remove a (x ∷ xs) = if x == a then xs else x ∷ remove a xs

  -- `Set.prototype.with` and `Set.prototype.without`
  unfoldable pub with_element : A → List A → List A × List A
  with_element a xs = let this = add a xs in (this, this)

  unfoldable pub without_element : A → List A → List A × List A
  without_element a xs = let this = remove a xs in (this, this)

  -- `new Set(xs)`
  unfoldable pub set_from : List A → List A → List A
  set_from s [] = s
  set_from s (x ∷ xs) = set_from (add x s) xs

  unfoldable pub new_set : List A → List A
  unfolding set_from add
  new_set = set_from []

  pub contains-append :
      (a : A) (xs ys : List A) → contains a (xs ++ ys) ≡ (contains a xs || contains a ys)
  unfolding contains
  contains-append a [] ys = refl
  contains-append a (x ∷ xs) ys = ground (arith, contains-append a xs ys)

  pub contains-add : (a b : A) (xs : List A) → contains b (add a xs) ≡ ((a == b) || contains b xs)
  unfolding add contains
  contains-add a b xs = ground (arith, ==_iff a b, contains-append b xs (a ∷ []))

  -- No element stands twice.
  abbrev pub Unique : List A → Type 0
  Unique [] = Unit
  Unique (x ∷ xs) = (contains x xs ≡ false) × Unique xs

  pub add_fresh : (a : A) (xs : List A) → contains a xs ≡ false → add a xs ≡ xs ++ a ∷ []
  unfolding add
  add_fresh a xs h = ground arith

  pub append-Unique :
      (a : A) (xs : List A) → contains a xs ≡ false → Unique xs → Unique (xs ++ a ∷ [])
  unfolding contains
  append-Unique a [] h u = (refl, tt)
  append-Unique a (x ∷ xs) h u =
      ground (arith, ==_iff a x, ==_iff x a, contains-append x xs (a ∷ []), append-Unique a xs)

  pub contains-remove :
      (a b : A) (xs : List A) → contains b xs ≡ false → contains b (remove a xs) ≡ false
  unfolding contains remove
  contains-remove a b [] h = refl
  contains-remove a b (x ∷ xs) h = ground (arith, contains-remove a b xs)

  -- Where no element stands twice, the one that is taken out is gone, the others are there as before.
  pub contains-remove_iff :
      (a b : A) (xs : List A)
      → Unique xs
      → contains b (remove a xs) ≡ (not (a == b) && contains b xs)
  unfolding contains remove
  contains-remove_iff a b [] u = ground arith
  contains-remove_iff a b (x ∷ xs) u =
      ground (arith, ==_iff a b, ==_iff x a, ==_iff x b, contains-remove_iff a b xs u.1)

  pub remove-Unique : (a : A) (xs : List A) → Unique xs → Unique (remove a xs)
  unfolding remove
  remove-Unique a [] u = tt
  remove-Unique a (x ∷ xs) u = ground (arith, contains-remove a x xs u.0, remove-Unique a xs u.1)

module _ {ℓ κ} {K : Type ℓ} {V : Type κ} ⦃e : DeepEqual K⦄ where
  pub set_fresh :
      (k : K) (v : V) (m : List (K × V)) → has_key k m ≡ false → set k v m ≡ m ++ (k, v) ∷ []
  unfolding set has_key
  set_fresh k v [] h = refl
  set_fresh k v ((j, w) ∷ m) h = ground (arith, set_fresh k v m)

  -- Writing to a map adds the key to the set of its keys.
  pub keys-set : (k : K) (v : V) (m : List (K × V)) → keys (set k v m) ≡ add k (keys m)
  unfolding set add contains
  keys-set k v [] = refl
  keys-set k v ((j, w) ∷ m) = ground (arith, keys-set k v m)

-- Maps whose values are compared too.
module _ {ℓ κ} {K : Type ℓ} {V : Type κ} ⦃e : DeepEqual K⦄ ⦃f : DeepEqual V⦄ where
  pub contains_of_get :
      (k : K) (v : V) (m : List (K × V)) → get k m ≡ some v → contains v (map (λ e. e.1) m) ≡ true
  unfolding get contains
  contains_of_get k v [] h = cc
  contains_of_get k v ((j, w) ∷ m) h = ground (arith, ==_iff w v, contains_of_get k v m)

  -- Where no value stands twice, taking a key out takes its value out of the values.
  pub remove-map :
      (k : K) (v : V) (m : List (K × V))
      → Unique (map (λ e. e.1) m)
      → get k m ≡ some v
      → remove v (map (λ e. e.1) m) ≡ map (λ e. e.1) (delete k m)
  unfolding get remove delete
  remove-map k v [] u h = cc
  remove-map k v ((j, w) ∷ m) u h =
      ground (arith, ==_iff w v, contains_of_get k v m, remove-map k v m u.1)
