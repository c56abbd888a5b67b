-- ===== src/Widget/Collection/Ids.antt =====
-- The ids of the items of a collection stay distinct.
use art_platform.Common.{
  ℕ, ◌+◌, ◌≡◌, ◌≢◌, ◌<◌, refl, sym, ◌∙◌, Bool, true, false, not, Option, none, some, List, [], ◌∷◌,
  ◌++◌, arith, DeepEqual, ◌==◌, nat_eq, All, filter, find?, Option-cases, Bool-cases, inl, inr,
}
use art_platform.Widget.Collection.Defs.{
  Collection, CollectionItem, Call, conclude, enable, enable_addition, enable_editing, set_addition,
  set_exclusion, clear_exclusion, delete_item, validate_items_except, add_item, add_new_item,
  blocked,
}

module _ {ℓ} {W : Type ℓ} where
  abbrev pub DistinctIds : List (CollectionItem W) → Type 0
  DistinctIds [] = Unit
  DistinctIds (x ∷ xs) = All (λ y. y.id ≢ x.id) xs × DistinctIds xs

  -- The ids of the items are distinct, and none of them will be drawn from the sequence.
  abbrev pub WellFormed : {L : Type ℓ} → Collection W L → Type 0
  WellFormed c = DistinctIds c.items × All (λ x. x.id < c.sequence) c.items

  pub All-end :
      (P : CollectionItem W → Type 0) (xs : List (CollectionItem W)) (x : CollectionItem W)
      → All P xs
      → P x
      → All P (xs ++ x ∷ [])
  All-end P [] x h p = (p, tt)
  All-end P (y ∷ xs) x h p = (h.0, All-end P xs x h.1 p)

  pub All-weaken :
      (P Q : CollectionItem W → Type 0) (xs : List (CollectionItem W))
      → ((x : CollectionItem W) → P x → Q x)
      → All P xs
      → All Q xs
  All-weaken P Q [] f h = tt
  All-weaken P Q (x ∷ xs) f h = (f x h.0, All-weaken P Q xs f h.1)

  All-filter :
      (P : CollectionItem W → Type 0) (p : CollectionItem W → Bool) (xs : List (CollectionItem W))
      → All P xs
      → All P (filter p xs)
  All-filter P p [] h = tt
  All-filter P p (x ∷ xs) h = elim (Bool-cases (p x)) [
    | inl stays ↦ rw stays (h.0, All-filter P p xs h.1)
    | inr goes ↦ rw goes (All-filter P p xs h.1)
  ]

  DistinctIds-end :
      (xs : List (CollectionItem W)) (x : CollectionItem W)
      → DistinctIds xs
      → All (λ y. y.id ≢ x.id) xs
      → DistinctIds (xs ++ x ∷ [])
  DistinctIds-end [] x d h = (tt, tt)
  DistinctIds-end (y ∷ xs) x d h =
      (All-end (λ z. z.id ≢ y.id) xs x d.0 (λ same. h.0 (sym same)), DistinctIds-end xs x d.1 h.1)

  DistinctIds-filter :
      (p : CollectionItem W → Bool) (xs : List (CollectionItem W))
      → DistinctIds xs
      → DistinctIds (filter p xs)
  DistinctIds-filter p [] d = tt
  DistinctIds-filter p (x ∷ xs) d = elim (Bool-cases (p x)) [
    | inl stays ↦ rw stays (All-filter (λ y. y.id ≢ x.id) p xs d.0, DistinctIds-filter p xs d.1)
    | inr goes ↦ rw goes (DistinctIds-filter p xs d.1)
  ]

module _ {ℓ} {W L : Type ℓ} where
  -- The same items, and the same sequence.
  abbrev Keeps : Collection W L → Collection W L → Type ℓ
  Keeps c c' = (c'.items ≡ c.items) × (c'.sequence ≡ c.sequence)

  enable_addition-Keeps : (c : Collection W L) → Keeps c (enable_addition c).0
  unfolding enable_addition set_addition
  enable_addition-Keeps c = ground arith

  enable_editing-Keeps : (c : Collection W L) → Keeps c (enable_editing c).0
  unfolding enable_editing clear_exclusion
  enable_editing-Keeps c = ground arith

  enable-Keeps : (c : Collection W L) → Keeps c (enable c).0
  unfolding enable
  enable-Keeps c =
      let first = enable_addition-Keeps c in
      let second = enable_editing-Keeps (enable_addition c).0 in
      (second.0 ∙ first.0, second.1 ∙ first.1)

  conclude-Keeps :
      (except : CollectionItem W) (stop : Option Bool) (done : Collection W L × List (Call W L))
      → Keeps done.0 (conclude except stop done).0
  unfolding set_addition set_exclusion
  conclude-Keeps except none done = (refl, refl)
  conclude-Keeps except (some false) done = (refl, refl)
  conclude-Keeps except (some true) done = (refl, refl)

  delete_item_found :
      (id : ℕ) (c : Collection W L) (x : CollectionItem W)
      → find? (λ item. item.id == id) c.items ≡ some x
      → ((delete_item id c).0.items ≡ filter (λ y. not (y.id == id)) c.items)
        × ((delete_item id c).0.sequence ≡ c.sequence)
  unfolding delete_item set_addition clear_exclusion
  delete_item_found id c x h = ground arith

  delete_item_missing :
      (id : ℕ) (c : Collection W L)
      → find? (λ item. item.id == id) c.items ≡ none
      → Keeps c (delete_item id c).0
  unfolding delete_item set_addition clear_exclusion
  delete_item_missing id c h = ground arith

  -- `deleteItem` keeps the ids of the items distinct, and below those that the sequence still gives.
  pub delete_item-WellFormed :
      (id : ℕ) (c : Collection W L) → WellFormed c → WellFormed (delete_item id c).0
  delete_item-WellFormed id c w = elim (Option-cases (find? (λ item. item.id == id) c.items)) [
    | inl missing ↦
        rw ((delete_item_missing id c missing).0, (delete_item_missing id c missing).1) w
    | inr (x, found) ↦
        rw ((delete_item_found id c x found).0, (delete_item_found id c x found).1)
          (
            DistinctIds-filter (λ y. not (y.id == id)) c.items w.0,
            All-filter (λ y. y.id < c.sequence) (λ y. not (y.id == id)) c.items w.1,
          )
  ]

module _ {ℓ} {W L V : Type ℓ} ⦃e : DeepEqual V⦄ (invalid : W → Bool) (value : W → V) where
  pub validate-Keeps :
      (except : CollectionItem W) (c : Collection W L)
      → Keeps c (validate_items_except invalid value except c).0
  unfolding validate_items_except
  validate-Keeps except c =
      let first = enable-Keeps c in
      let second = conclude-Keeps except (blocked invalid value except c.items) (enable c) in
      (second.0 ∙ first.0, second.1 ∙ first.1)

  pub add_item_items :
      (id : ℕ) (w : W) (c : Collection W L)
      → ((add_item invalid value id w c).0.items ≡ c.items ++ record { id = id; widget = w } ∷ [])
        × ((add_item invalid value id w c).0.sequence ≡ c.sequence)
  unfolding add_item
  add_item_items id w c =
      let new_item : CollectionItem W = record { id = id; widget = w } in
      validate-Keeps new_item
        (record c { items = c.items ++ new_item ∷ []; last_item = some new_item })

  pub add_item-WellFormed :
      (id : ℕ) (w : W) (c : Collection W L)
      → WellFormed c
      → All (λ x. x.id ≢ id) c.items
      → id < c.sequence
      → WellFormed (add_item invalid value id w c).0
  add_item-WellFormed id w c wf fresh below =
      rw ((add_item_items id w c).0, (add_item_items id w c).1)
        (
          DistinctIds-end c.items (record { id = id; widget = w }) wf.0 fresh,
          All-end (λ x. x.id < c.sequence) c.items (record { id = id; widget = w }) wf.1 below,
        )

  -- `addNewItem` keeps the ids of the items distinct, and below those that the sequence still gives.
  pub add_new_item-WellFormed :
      (w : W) (c : Collection W L) → WellFormed c → WellFormed (add_new_item invalid value w c).0
  unfolding add_new_item
  add_new_item-WellFormed w c wf =
      add_item-WellFormed c.sequence w (record c { sequence = c.sequence + 1 })
        (
          wf.0,
          All-weaken (λ x. x.id < c.sequence) (λ x. x.id < c.sequence + 1) c.items
              (λ x h. omega arith) wf.1,
        )
        (All-weaken (λ x. x.id < c.sequence) (λ x. x.id ≢ c.sequence) c.items (λ x h. omega arith)
          wf.1)
        (omega arith)
