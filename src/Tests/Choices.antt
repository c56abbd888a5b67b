-- ===== src/Tests/Choices.antt =====
-- Files of a form, a selector, a searcher, a grid and the cards of a page.
use art_platform.Common.{
  ◌++◌, ℕ, ◌≡◌, ◌≢◌, refl, true, false, none, some, String, List, [], ◌∷◌, map, All, arith, nat_eq,
  string_eq, ◌==◌, ==_refl, ==_iff, get_elem?, zero, suc,
}
use art_platform.Extensions.Maps.{contains, Unique, has_key, to_array}
use art_platform.Extensions.Grouping.{to_map, to_map-to_array}
use art_platform.Model.Modules.{ModuleInformation}
use art_platform.Tests.Data.{module_with}
use art_platform.Widget.Files as Files
use art_platform.Widget.Files.Bounds.{InBounds, run-InBounds}
use art_platform.Widget.Files.Names.{run-file_loader}
use art_platform.Widget.Files.Late.{others, contents_of, end_reading-late}
use art_platform.Widget.Selector as Selector
use art_platform.Widget.Selector.Settling as Selecting
use art_platform.Widget.Selector.Available as Available
use art_platform.Widget.Searcher as Searcher
use art_platform.Widget.Searcher.Settling as Searching
use art_platform.Widget.Grid as Grid
use art_platform.Widget.Grid.Reversed.{remove_key-unshift_widgets}
use art_platform.Widget.Grid.Keys.{InSync}
use art_platform.Page.Modules.{Cards, card_key, IsKept, refresh_cards, refresh_cards-arranged}

-- The entries of a map.
abbrev ports : List (String × ℕ)
ports = ("http", 80) ∷ ("https", 443) ∷ []

to_map-to_array_example : to_map (λ entry index. entry) (to_array (λ k v. (k, v)) ports) ≡ ports
unfolding has_key
to_map-to_array_example = to_map-to_array ports (refl, (refl, tt))

abbrev certificate : Files.File
certificate = record { object = 1; filename = "certificate"; file_size = some 5; is_blob = true }

-- A file too large, a file, the end of its reading, and its removal.
abbrev uploads : List Files.Event
uploads =
    Files.file_reported none (some (record certificate { object = 2; file_size = some 50 }))
    ∷ Files.file_reported none (some certificate)
    ∷ Files.reading_ended certificate (1 ∷ [])
    ∷ []

run-InBounds_example :
    All (InBounds 20) (Files.run uploads (Files.file_loader 20 [])).0.loaded_files
run-InBounds_example = run-InBounds 20 [] uploads

run-file_loader_example :
    (map (λ file. file.name) (Files.run uploads (Files.file_loader 20 [])).0.current_files
      ≡ map (λ file. file.filename) (Files.run uploads (Files.file_loader 20 [])).0.loaded_files)
    × Unique
        (map (λ file. file.filename) (Files.run uploads (Files.file_loader 20 [])).0.loaded_files)
unfolding Files.file_loader Files.step Files.on_new_file Files.attach_file Files.drop_object
    Files.keep_file Files.replace_or_append Files.update_files Files.end_reading Files.add_file
    contains
run-file_loader_example = run-file_loader 20 [] uploads tt (refl, (refl, (refl, tt)))

abbrev key_file : Files.File
key_file = record certificate { object = 3; filename = "key" }

abbrev loading_two : Files.FileLoader
loading_two = record (Files.file_loader 20 []) { loaded_files = certificate ∷ key_file ∷ [] }

end_reading-late_example :
    let late =
      (Files.run
        (Files.removal_asked (some certificate) ∷ Files.reading_ended certificate (1 ∷ []) ∷ [])
        loading_two).0 in
    (late.current_files
      ≡ map Files.unread (others certificate (certificate ∷ key_file ∷ []))
        ++ contents_of certificate (1 ∷ []) ∷ [])
    × (contains "certificate" (map (λ f. f.filename) late.loaded_files) ≡ false)
end_reading-late_example = end_reading-late certificate 1 [] loading_two

-- Two equal values and another one.
abbrev sizes : Selector.Selector ℕ
sizes = record { available = 4 ∷ 7 ∷ 7 ∷ []; selected = some 4; selected_index = 0 }

set_selected_index-Settles_example :
    Selecting.Settles 7 (4 ∷ 7 ∷ 7 ∷ []) (Selector.set_selected_index 2 sizes)
set_selected_index-Settles_example = Selecting.set_selected_index-Settles 2 7 sizes refl refl

nine_absent : (i : ℕ) → get_elem? {A = ℕ} (4 ∷ 7 ∷ 7 ∷ []) i ≢ some 9
nine_absent zero = λ h. cc
nine_absent (suc zero) = λ h. cc
nine_absent (suc (suc zero)) = λ h. cc
nine_absent (suc (suc (suc i))) = λ h. cc

set_selected-unavailable_example :
    Selector.set_selected (some 9) (record sizes { selected = some 7; selected_index = 1 })
    ≡ Selector.done sizes (
        Selector.selected_told (some 4)
        ∷ Selector.index_told 0
        ∷ Selector.selected_told (some 9)
        ∷ [])
set_selected-unavailable_example =
    Available.set_selected-unavailable 4 (7 ∷ 7 ∷ []) 9
      (record sizes { selected = some 7; selected_index = 1 }) refl nine_absent refl

-- Three values, none of them selected.
abbrev tags : Searcher.Searcher ℕ
tags = record { available = 4 ∷ 7 ∷ 9 ∷ []; selected = []; selected_indexes = [] }

equal_refl : (x : ℕ) → (x == x) ≡ true
equal_refl x = ==_refl x

equal_trans : (x y z : ℕ) → (x == y) ≡ true → (y == z) ≡ true → (x == z) ≡ true
equal_trans x y z p q = ground (arith, ==_iff x y, ==_iff y z, ==_iff x z)

set_selected-Settles_example :
    Searching.Settles
      (λ x y. x == y)
      equal_refl
      equal_trans
      (9 ∷ 5 ∷ 4 ∷ [])
      (4 ∷ 7 ∷ 9 ∷ [])
      (Searcher.set_selected (λ x y. x == y) (9 ∷ 5 ∷ 4 ∷ []) tags)
unfolding Searcher.indexes_of
set_selected-Settles_example =
    Searching.set_selected-Settles (λ x y. x == y) equal_refl equal_trans (9 ∷ 5 ∷ 4 ∷ []) tags refl

abbrev shown : Grid.Grid ℕ ℕ
shown = record { items = 1 ∷ []; keys = 1 ∷ [] }

remove_key-unshift_widgets_example :
    Grid.remove_key (λ w. w) 2 (Grid.unshift_widgets (λ w. w) (2 ∷ 3 ∷ []) shown)
    ≡ record { items = 2 ∷ 1 ∷ []; keys = 3 ∷ 1 ∷ [] }
remove_key-unshift_widgets_example = remove_key-unshift_widgets (λ w. w) 2 3 shown

abbrev shop : ℕ → ModuleInformation
shop id = record (module_with none).information { id = id }

abbrev cards : Cards
cards = record { items = shop 1 ∷ shop 2 ∷ []; keys = 1 ∷ 2 ∷ [] }

cards-IsKept : IsKept cards
unfolding contains
cards-IsKept = record { in_sync = refl; unique = (refl, (refl, tt)) }

refresh_cards-arranged_example :
    ((refresh_cards (shop 3 ∷ shop 2 ∷ []) false cards).keys ≡ 3 ∷ 2 ∷ [])
    × InSync card_key (refresh_cards (shop 3 ∷ shop 2 ∷ []) false cards)
refresh_cards-arranged_example = refresh_cards-arranged (shop 3 ∷ shop 2 ∷ []) cards cards-IsKept
