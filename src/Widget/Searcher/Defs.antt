-- ===== src/Widget/Searcher/Defs.antt =====
-- The class `Configuration` of ManagedSearcher.tsx. The properties `selectedIndexes` and `selected`
-- consume each other's changes. The value of an item is the value that it was made from; `compare` is
-- the comparator of the properties, or deep equality.
use art_platform.Common.{
  ℕ, zero, suc, Bool, true, false, Option, none, some, List, [], ◌∷◌, ◌++◌, String, get_elem?,
  find_index?, find?, any, if◌then◌else◌, DeepEqual, ◌==◌, nat_eq, string_eq,
}

pub record Searcher {ℓ} (T : Type ℓ) : Type ℓ where
  pub available : List T
  pub selected : List T
  pub selected_indexes : List ℕ

pub data Call {ℓ} (T : Type ℓ) : Type ℓ where
  selected_told : List T → Call T
  indexes_told : List ℕ → Call T

pub data Assignment {ℓ} (T : Type ℓ) : Type ℓ where
  select : List T → Assignment T
  select_indexes : List ℕ → Assignment T

pub data Outcome {ℓ} (T : Type ℓ) : Type ℓ where
  done : Searcher T → List (Call T) → Outcome T
  thrown : Outcome T
  exhausted : Outcome T

abbrev pub then_tell {ℓ} : {T : Type ℓ} → Call T → Outcome T → Outcome T
then_tell call (done s calls) = done s (calls ++ call ∷ [])
then_tell call thrown = thrown
then_tell call exhausted = exhausted

module _ {ℓ} {T : Type ℓ} ⦃e : DeepEqual T⦄ where
  -- `equal` of two arrays
  abbrev pub same_list : List T → List T → Bool
  same_list [] [] = true
  same_list [] (y ∷ ys) = false
  same_list (x ∷ xs) [] = false
  same_list (x ∷ xs) (y ∷ ys) = if x == y then same_list xs ys else false

module _ {ℓ} {T : Type ℓ} where
  -- `indexes.map(index => items[index].value)`: `none` where an index has no item
  abbrev pub values_at : List ℕ → List T → Option (List T)
  values_at [] xs = some []
  values_at (i ∷ is) xs = elim (get_elem? xs i) [
    | none ↦ none
    | some x ↦ elim (values_at is xs) [ none ↦ none | some rest ↦ some (x ∷ rest) ]
  ]

  -- The loop over the items that pushes the indexes of those that satisfy the test.
  abbrev pub indexes_where : ℕ → (T → Bool) → List T → List ℕ
  indexes_where n p [] = []
  indexes_where n p (x ∷ xs) =
      if p x then n ∷ indexes_where (suc n) p xs else indexes_where (suc n) p xs

module _ {ℓ} {T : Type ℓ} ⦃e : DeepEqual T⦄ (compare : T → T → Bool) where
  -- `values.some(value => comparator(item.value, value))`
  abbrev pub is_among : List T → T → Bool
  is_among values x = any (compare x) values

  unfoldable pub indexes_of : List T → List T → List ℕ
  indexes_of values items = indexes_where 0 (is_among values) items

  -- An assignment, with those that its consumers make.
  unfoldable pub assign : ℕ → Assignment T → Searcher T → Outcome T
  assign zero a s = exhausted
  assign (suc fuel) (select values) s =
      let inner =
        assign fuel (select_indexes (indexes_of values s.available))
          (record s { selected = values }) in
      if same_list s.selected values then done s [] else then_tell (selected_told values) inner
  assign (suc fuel) (select_indexes is) s = elim (values_at is s.available) [
    | none ↦ if same_list s.selected_indexes is then done s [] else thrown
    | some values ↦
        let inner = assign fuel (select values) (record s { selected_indexes = is }) in
        if same_list s.selected_indexes is then done s [] else then_tell (indexes_told is) inner
  ]

  -- The fuel is enough: see `Settling`.
  unfoldable pub set_selected : List T → Searcher T → Outcome T
  set_selected values = assign 4 (select values)

  unfoldable pub set_selected_indexes : List ℕ → Searcher T → Outcome T
  set_selected_indexes is = assign 6 (select_indexes is)

  -- `values.map(value => items.findIndex(...)).filter(index => index != -1)`
  abbrev pub found_indexes : List T → List T → List ℕ
  found_indexes [] items = []
  found_indexes (v ∷ vs) items =
      let rest = found_indexes vs items in
      elim (find_index? (λ x. compare x v) items) [ none ↦ rest | some i ↦ i ∷ rest ]

  -- The constructor; absent selected values are `[]`.
  unfoldable pub searcher : List T → List T → Searcher T
  searcher available given = record {
    available = available;
    selected = given;
    selected_indexes = found_indexes given available;
  }

  unfoldable pub set_available_values : List T → Searcher T → Outcome T
  unfolding set_selected_indexes
  set_available_values values s =
      set_selected_indexes (found_indexes s.selected values) (record s { available = values })

module _ {ℓ} {T : Type ℓ} (suggestion : T → String) where
  -- `findItem` and `findItemIndex`
  unfoldable pub find_item : String → List T → Option T
  find_item text = find? (λ x. suggestion x == text)

  unfoldable pub find_item_index : String → List T → Option ℕ
  find_item_index text = find_index? (λ x. suggestion x == text)

  -- The indexes that `selectItems` assigns.
  unfoldable pub item_indexes : List String → List T → List ℕ
  unfolding find_item_index
  item_indexes [] items = []
  item_indexes (text ∷ texts) items =
      let rest = item_indexes texts items in
      elim (find_item_index text items) [ none ↦ rest | some i ↦ i ∷ rest ]
