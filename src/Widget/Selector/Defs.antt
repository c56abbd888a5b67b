-- ===== src/Widget/Selector/Defs.antt =====
-- The class `Configuration` of ManagedSelector.tsx. The properties `selected` and `selectedIndex`
-- consume each other's changes: an assignment to one may assign the other, inside it. The value of
-- an item is the value that it was made from.
use art_platform.Common.{
  ℕ, zero, suc, Bool, false, Option, none, some, List, [], ◌∷◌, ◌++◌, String, nat_beq, get_elem?,
  find?, find_index?, if◌then◌else◌, DeepEqual, ◌==◌, nat_eq, string_eq,
}
use art_platform.Pattern.Property.{equals_value}

pub record Selector {ℓ} (T : Type ℓ) : Type ℓ where
  pub available : List T
  pub selected : Option T
  pub selected_index : ℕ

-- What the listeners that others add to the two properties are told.
pub data Call {ℓ} (T : Type ℓ) : Type ℓ where
  selected_told : Option T → Call T
  index_told : ℕ → Call T

-- An assignment to one of the properties.
pub data Assignment {ℓ} (T : Type ℓ) : Type ℓ where
  select : Option T → Assignment T
  select_index : ℕ → Assignment T

-- What comes of assignments: a state and the calls, an exception, or too little fuel.
pub data Outcome {ℓ} (T : Type ℓ) : Type ℓ where
  done : Selector T → List (Call T) → Outcome T
  thrown : Outcome T
  exhausted : Outcome T

-- The listeners of others come after the consumer that links the properties.
abbrev pub then_tell {ℓ} : {T : Type ℓ} → Call T → Outcome T → Outcome T
then_tell call (done s calls) = done s (calls ++ call ∷ [])
then_tell call thrown = thrown
then_tell call exhausted = exhausted

abbrev pub or_zero : Option ℕ → ℕ
or_zero none = 0
or_zero (some i) = i

module _ {ℓ} {T : Type ℓ} ⦃e : DeepEqual T⦄ where
  -- `Math.max(items.findIndex(item => equal(item.value, value)), 0)`
  unfoldable pub index_of : Option T → List T → ℕ
  index_of none xs = 0
  index_of (some v) xs = or_zero (find_index? (λ x. x == v) xs)

  -- `equal(this.#value, value)`, which is not asked of an undefined value
  abbrev pub same_selected : Option T → Option T → Bool
  same_selected none v = false
  same_selected (some old) v = equals_value old v

  -- An assignment, with the assignments that its consumers make.
  unfoldable pub assign : ℕ → Assignment T → Selector T → Outcome T
  assign zero a s = exhausted
  assign (suc fuel) (select v) s =
      let index = index_of v s.available in
      let inner = assign fuel (select_index index) (record s { selected = v }) in
      if same_selected s.selected v
      then done (record s { selected = v }) []
      else (if nat_beq s.selected_index index
          then done (record s { selected = v }) (selected_told v ∷ [])
          else then_tell (selected_told v) inner)
  assign (suc fuel) (select_index i) s = elim (get_elem? s.available i) [
    | none ↦ if nat_beq s.selected_index i then done s [] else thrown
    | some v ↦
        let inner = assign fuel (select (some v)) (record s { selected_index = i }) in
        if nat_beq s.selected_index i then done s [] else then_tell (index_told i) inner
  ]

  -- The fuel is enough: see `Settling`.
  unfoldable pub set_selected : Option T → Selector T → Outcome T
  set_selected v = assign 4 (select v)

  unfoldable pub set_selected_index : ℕ → Selector T → Outcome T
  set_selected_index i = assign 4 (select_index i)

  -- The constructor: `truthy` is the truth of a value; `none` where it throws.
  unfoldable pub selector : (T → Bool) → List T → Option T → Option (Selector T)
  unfolding index_of
  selector truthy [] given = none
  selector truthy (x ∷ xs) none =
      some (record { available = x ∷ xs; selected = some x; selected_index = 0 })
  selector truthy (x ∷ xs) (some v) = some (record {
    available = x ∷ xs;
    selected = some v;
    selected_index = if truthy v then index_of (some v) (x ∷ xs) else 0;
  })

  -- One outcome after another.
  abbrev pub and_then : Outcome T → (Selector T → Outcome T) → Outcome T
  and_then thrown f = thrown
  and_then exhausted f = exhausted
  and_then (done s calls) f = elim (f s) [
    | done s' calls' ↦ done s' (calls ++ calls')
    | thrown ↦ thrown
    | exhausted ↦ exhausted
  ]

  unfoldable pub set_available_values : List T → Selector T → Outcome T
  set_available_values values s =
      let renewed = record s { available = values } in
      elim s.selected [
        | none ↦ and_then (set_selected_index 0 renewed) (set_selected (get_elem? values 0))
        | some v ↦
            if nat_beq s.selected_index (index_of (some v) values)
            then set_selected (get_elem? values (index_of (some v) values)) renewed
            else set_selected_index (index_of (some v) values) renewed
      ]

  -- `selectItem`, by the suggestion that the factory gives each value
  unfoldable pub select_item : (T → String) → String → Selector T → Outcome T
  select_item suggestion text s =
      set_selected_index (or_zero (find_index? (λ x. suggestion x == text) s.available)) s

  unfoldable pub find_item : (T → String) → String → Selector T → Option T
  find_item suggestion text s = find? (λ x. suggestion x == text) s.available
