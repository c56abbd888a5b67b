-- ===== src/Tests/Widgets.antt =====
-- A collection of two numbers.
use art_platform.Common.{
  List, ℕ, refl, Bool, false, none, some, String, [], ◌∷◌, any, if◌then◌else◌, nat_eq, arith, ◌==◌,
}
use art_platform.Pattern.Property.{property}
use art_platform.Widget.Collection.{Collection, CollectionItem, validate_items_except}
use art_platform.Widget.Collection.{managed_collection}
use art_platform.Widget.Collection.Traces.{
  Event, adds, changes, deletes, run, run-managed_collection,
}
use art_platform.Widget.Collection.Ids.{WellFormed}
use art_platform.Widget.Collection.Validation.{Holds, blocks, validate_items_except_lem}

abbrev item : ℕ → ℕ → CollectionItem ℕ
item id number = record { id = id; widget = number }

abbrev collection : Collection ℕ String
collection = record {
  sequence = 3;
  items = item 1 7 ∷ item 2 7 ∷ [];
  last_item = some (item 2 7);
  addition_disabled = property (some false);
  editing_disabled = property none;
}

collection-WellFormed : WellFormed collection
collection-WellFormed = (((omega arith, tt), (tt, tt)), (omega arith, (omega arith, tt)))

collection-Holds : Holds false none collection
unfolding property
collection-Holds = record {
  addition = refl;
  editing = refl;
  addition_unguarded = refl;
  editing_unguarded = refl;
}

-- A number is invalid if it is 0; the two items have the same number.
abbrev is_zero : ℕ → Bool
is_zero n = n == 0

abbrev number : ℕ → ℕ
number n = n

validate_items_except_lem_example :
    Holds
      (any (blocks is_zero number (item 2 7)) (item 1 7 ∷ item 2 7 ∷ []))
      (if any (blocks is_zero number (item 2 7)) (item 1 7 ∷ item 2 7 ∷ []) then some 2 else none)
      (validate_items_except is_zero number (item 2 7) collection).0
validate_items_except_lem_example =
    validate_items_except_lem is_zero number (item 2 7) collection false none collection-Holds

-- One of the two items is deleted, the other is changed, and a third is added.
abbrev events : List (Event ℕ ℕ)
events = deletes 2 ∷ changes (item 5 5) is_zero number ∷ adds 7 is_zero number ∷ []

run-managed_collection_example :
    WellFormed {L = String}
      (run events (managed_collection is_zero number (5 ∷ 2 ∷ []) (λ id. id)).0).0
run-managed_collection_example =
    run-managed_collection String is_zero number (5 ∷ 2 ∷ []) (λ id. id) events
      (((omega arith), tt), (tt, tt))
