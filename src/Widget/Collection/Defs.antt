-- ===== src/Widget/Collection/Defs.antt =====
-- The state of a collection and its operations. What the widgets of the items say of themselves
-- when they are asked (`validator` and `valueExtractor`) is given at each validation. The property
-- `items` is the list that it holds, since only rendering listens to it; the pauses of rendering
-- are left out.
use art_platform.Common.{
  ℕ, ◌+◌, Bool, true, false, not, ◌&&◌, Option, none, some, List, [], ◌∷◌, ◌++◌, map, if◌then◌else◌,
  DeepEqual, ◌==◌, nat_eq, bool_eq, find?, filter, all, leb,
}
use art_platform.Extensions.Arrays.{last}
use art_platform.Pattern.Property.{Property, property, set_value, clear, consume, cleared}

-- `CollectionItem`: the id, and the widget with its handlers.
pub record CollectionItem {ℓ} (W : Type ℓ) : Type ℓ where
  pub id : ℕ
  pub widget : W

-- `L` are the consumers of `additionDisabled`; those of `editingDisabled` are the items.
pub record Collection {ℓ} (W L : Type ℓ) : Type ℓ where
  pub sequence : ℕ
  pub items : List (CollectionItem W)
  pub last_item : Option (CollectionItem W)
  pub addition_disabled : Property Bool L
  pub editing_disabled : Property ℕ (CollectionItem W)

-- What a collection calls: the handlers of an item, the consumers of `additionDisabled`, and the
-- events `add` and `delete`.
pub data Call {ℓ} (W L : Type ℓ) : Type ℓ where
  disable_handler duplicate_handler : CollectionItem W → Bool → Call W L
  addition_consumer : L → Option Bool → Call W L
  add_executed delete_executed : CollectionItem W → Call W L

-- `itemSequence`, up to its first value.
unfoldable pub first_id : List ℕ → ℕ
first_id initial = elim (find? (λ id. all (λ less_than. leb less_than id) initial) initial) [
  | some id ↦ id + 1
  | none ↦ 1
]

module _ {ℓ} {W V : Type ℓ} ⦃e : DeepEqual V⦄ (invalid : W → Bool) (value : W → V) where
  -- The loop over the items: `none` where it runs to its end, or whether the item that stops it
  -- is a duplicate.
  unfoldable pub blocked : CollectionItem W → List (CollectionItem W) → Option Bool
  blocked except [] = none
  blocked except (item ∷ items) =
      let rest = blocked except items in
      if invalid item.widget
      then some false
      else (if not (item.id == except.id) && (value except.widget == value item.widget)
          then some true
          else rest)

module _ {ℓ} {W L : Type ℓ} where
  unfoldable pub new_collection : List ℕ → Collection W L
  unfolding first_id
  new_collection given_ids = record {
    sequence = first_id given_ids;
    items = [];
    last_item = none;
    addition_disabled = property (some false);
    editing_disabled = property none;
  }

  -- `disabled => widget.disableHandler?.(disabled?.exclusion != id)`
  abbrev disable_call : CollectionItem W × Option ℕ → Call W L
  disable_call (item, none) = disable_handler item true
  disable_call (item, some exclusion) = disable_handler item (not (exclusion == item.id))

  abbrev addition_call : L × Option Bool → Call W L
  addition_call (l, disabled) = addition_consumer l disabled

  -- `additionDisabled.value = disabled`
  unfoldable pub set_addition : Bool → Collection W L → Collection W L × List (Call W L)
  set_addition disabled c =
      let (p, calls) = set_value (some disabled) c.addition_disabled in
      (record c { addition_disabled = p }, map addition_call calls)

  -- `editingDisabled.value = {exclusion}` and `editingDisabled.clear()`
  unfoldable pub set_exclusion : ℕ → Collection W L → Collection W L × List (Call W L)
  set_exclusion exclusion c =
      let (p, calls) = set_value (some exclusion) c.editing_disabled in
      (record c { editing_disabled = p }, map disable_call calls)

  unfoldable pub clear_exclusion : Collection W L → Collection W L × List (Call W L)
  clear_exclusion c =
      let (p, handlers) = clear c.editing_disabled in
      (record c { editing_disabled = p }, map (λ item. disable_handler item false) handlers)

  unfoldable pub clear_collection : Collection W L → Collection W L × List (Call W L)
  unfolding set_addition clear_exclusion
  clear_collection c =
      let first = set_addition false (record c { items = [] }) in
      let second = clear_exclusion first.0 in
      (record second.0 { items = []; last_item = none }, first.1 ++ second.1)

  unfoldable pub delete_item : ℕ → Collection W L → Collection W L × List (Call W L)
  unfolding set_addition clear_exclusion
  delete_item id c =
      let first = set_addition false c in
      let second : Collection W L × List (Call W L) = elim c.editing_disabled.value [
        | none ↦ (first.0, [])
        | some exclusion ↦ if exclusion == id then clear_exclusion first.0 else (first.0, [])
      ] in
      elim (find? (λ item. item.id == id) c.items) [
        | none ↦ (second.0, first.1 ++ second.1)
        | some item ↦
            let left = filter (λ x. not (x.id == id)) c.items in
            (
              record second.0 { items = left; last_item = last left },
              first.1 ++ second.1 ++ delete_executed item ∷ [],
            )
      ]

  -- The first two conditions of a validation.
  unfoldable pub enable_addition : Collection W L → Collection W L × List (Call W L)
  enable_addition c = elim c.addition_disabled.value [
    | some true ↦ set_addition false c
    | some false ↦ (c, [])
    | none ↦ (c, [])
  ]

  unfoldable pub enable_editing : Collection W L → Collection W L × List (Call W L)
  enable_editing c = elim c.editing_disabled.value [
    | some exclusion ↦ clear_exclusion c
    | none ↦ (c, [])
  ]

  unfoldable pub enable : Collection W L → Collection W L × List (Call W L)
  enable c =
      let first = enable_addition c in
      let second = enable_editing first.0 in (second.0, first.1 ++ second.1)

  abbrev pub disable : ℕ → Collection W L → Collection W L × List (Call W L)
  disable except c =
      let first = set_addition true c in
      let second = set_exclusion except first.0 in (second.0, first.1 ++ second.1)

  -- What a validation does where it stops or comes to the end, after what it called before.
  abbrev pub conclude :
      CollectionItem W
      → Option Bool
      → Collection W L × List (Call W L)
      → Collection W L × List (Call W L)
  conclude except none (c, calls) = (c, calls ++ duplicate_handler except false ∷ [])
  conclude except (some false) (c, calls) =
      let done = disable except.id c in (done.0, calls ++ done.1)
  conclude except (some true) (c, calls) =
      let done = disable except.id c in (done.0, calls ++ duplicate_handler except true ∷ done.1)

  module _ {V : Type ℓ} ⦃e : DeepEqual V⦄ (invalid : W → Bool) (value : W → V) where
    unfoldable pub validate_items_except :
        CollectionItem W → Collection W L → Collection W L × List (Call W L)
    validate_items_except except c =
        conclude except (blocked invalid value except c.items) (enable c)

    -- `addItem`; that the value of the widget is consumed by a validation is an event of its own.
    unfoldable pub add_item : ℕ → W → Collection W L → Collection W L × List (Call W L)
    unfolding validate_items_except
    add_item id widget c =
        let new_item : CollectionItem W = record { id = id; widget = widget } in
        let pushed = record c { items = c.items ++ new_item ∷ []; last_item = some new_item } in
        let valid = validate_items_except new_item pushed in
        let (p, calls) = consume new_item (cleared new_item valid.0.editing_disabled) in
        (
          record valid.0 { editing_disabled = p },
          valid.1 ++ map disable_call calls ++ add_executed new_item ∷ [],
        )

    unfoldable pub add_new_item : W → Collection W L → Collection W L × List (Call W L)
    unfolding add_item
    add_new_item widget c = add_item c.sequence widget (record c { sequence = c.sequence + 1 })

    -- The constructor of `ManagedCollection`: an item for each given id.
    unfoldable pub add_items : List ℕ → (ℕ → W) → Collection W L → Collection W L × List (Call W L)
    unfolding add_item
    add_items [] factory c = (c, [])
    add_items (id ∷ ids) factory c =
        let first = add_item id (factory id) c in
        let rest = add_items ids factory first.0 in (rest.0, first.1 ++ rest.1)

    unfoldable pub managed_collection : List ℕ → (ℕ → W) → Collection W L × List (Call W L)
    unfolding add_items
    managed_collection ids factory = add_items ids factory (new_collection ids)
