-- ===== src/Widget/Collection/Traces.antt =====
-- Any life of a collection: made from ids, and then items are added, deleted, changed and validated,
-- and the collection is cleared, in any order.
use art_platform.Common.{ℕ, Bool, List, [], ◌∷◌, ◌++◌, DeepEqual}
use art_platform.Widget.Collection.Defs.{
  Collection, CollectionItem, Call, clear_collection, delete_item, validate_items_except,
  add_new_item, managed_collection,
}
use art_platform.Widget.Collection.Ids.{
  WellFormed, validate-Keeps, delete_item-WellFormed, add_new_item-WellFormed,
}
use art_platform.Widget.Collection.Given.{DistinctNumbers, managed_collection-WellFormed}

-- What happens to a collection. A change of an item's value leads to its validation, with what the
-- widgets then say of themselves.
pub data Event {ℓ} (W V : Type ℓ) : Type ℓ where
  adds : W → (W → Bool) → (W → V) → Event W V
  changes : CollectionItem W → (W → Bool) → (W → V) → Event W V
  deletes : ℕ → Event W V
  clears : Event W V

clear_collection-WellFormed {ℓ} :
    {W L : Type ℓ} (c : Collection W L) → WellFormed (clear_collection c).0
unfolding clear_collection
clear_collection-WellFormed c = (tt, tt)

module _ {ℓ} {W L V : Type ℓ} ⦃e : DeepEqual V⦄ where
  unfoldable pub step : Event W V → Collection W L → Collection W L × List (Call W L)
  step (adds w invalid value) c = add_new_item invalid value w c
  step (changes item invalid value) c = validate_items_except invalid value item c
  step (deletes id) c = delete_item id c
  step clears c = clear_collection c

  unfoldable pub run : List (Event W V) → Collection W L → Collection W L × List (Call W L)
  unfolding step
  run [] c = (c, [])
  run (event ∷ events) c =
      let first = step event c in let rest = run events first.0 in (rest.0, first.1 ++ rest.1)

  step-WellFormed :
      (event : Event W V) (c : Collection W L) → WellFormed c → WellFormed (step event c).0
  unfolding step
  step-WellFormed (adds w invalid value) c h = add_new_item-WellFormed invalid value w c h
  step-WellFormed (changes item invalid value) c h =
      let kept = validate-Keeps invalid value item c in rw (kept.0, kept.1) h
  step-WellFormed (deletes id) c h = delete_item-WellFormed id c h
  step-WellFormed clears c h = clear_collection-WellFormed c

  pub run-WellFormed :
      (events : List (Event W V)) (c : Collection W L) → WellFormed c → WellFormed (run events c).0
  unfolding run
  run-WellFormed [] c h = h
  run-WellFormed (event ∷ events) c h =
      run-WellFormed events (step event c).0 (step-WellFormed event c h)

-- The items of a collection that was made from distinct ids have distinct ids through any events,
-- and no id that the sequence still gives is that of an item.
pub run-managed_collection {ℓ} :
    {W V : Type ℓ} (L : Type ℓ) ⦃e : DeepEqual V⦄ (invalid : W → Bool) (value : W → V)
    (ids : List ℕ) (factory : ℕ → W) (events : List (Event W V))
    → DistinctNumbers ids
    → WellFormed {L = L} (run events (managed_collection invalid value ids factory).0).0
run-managed_collection L invalid value ids factory events d =
    run-WellFormed events (managed_collection invalid value ids factory).0
      (managed_collection-WellFormed L invalid value ids factory d)
