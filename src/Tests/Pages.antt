-- ===== src/Tests/Pages.antt =====
-- A filtered page, the form of a registration, and a cache of arrays.
use art_platform.Common.{
  ==_iff, ℕ, ◌≡◌, ◌≢◌, refl, Bool, true, false, none, String, List, [], ◌∷◌, nat_eq, string_eq,
  ◌==◌, length,
}
use art_platform.Extensions.Maps.{contains}
use art_platform.Model.Modules.{ModuleInformation}
use art_platform.Tests.Data.{module_with}
use art_platform.Page.Filtering as Filtering
use art_platform.Page.Registration as Registration
use art_platform.Page.Registration.Validation.{IsValidated}
use art_platform.Page.Registration.Runs.{write-run}
use art_platform.Widget.TextField as TextField
use art_platform.Pattern.Caches.{cached_all, first_widgets, cached_all_lem}

abbrev stored : ℕ → ModuleInformation
stored id = record (module_with none).information { id = id }

-- The answer of a silent request comes before that of the first request.
abbrev filtered : List Filtering.Event
filtered =
    Filtering.filters true
    ∷ Filtering.answers 1 (stored 1 ∷ stored 2 ∷ [])
    ∷ Filtering.answers 0 (stored 2 ∷ [])
    ∷ []

run-new_page_example :
    Filtering.IsShown
      (stored 5 ∷ [])
      (Filtering.run filtered (Filtering.filter_modules false (Filtering.new_page (stored 5 ∷ []))))
unfolding contains
run-new_page_example =
    Filtering.run-new_page filtered (stored 5 ∷ []) ((refl, (refl, tt)), ((refl, tt), tt))

false_is_not_true : false ≢ true
false_is_not_true h = cc

abbrev ann : String
ann = "ann"

abbrev bob : String
bob = "bob"

differ : ann ≢ bob
differ h = false_is_not_true ((==_iff ann bob).1 h)

-- No text may be "!".
abbrev accepts : String → Bool
accepts text = elim (text == "!") [ true ↦ false | false ↦ true ]

abbrev typed : List Registration.Event
typed =
    Registration.types Registration.name_field ann
    ∷ Registration.names_received (ann ∷ [])
    ∷ Registration.types Registration.password_field "secret"
    ∷ Registration.emails_received []
    ∷ []

write-run_example : IsValidated (
    Registration.write Registration.name_field bob
      (Registration.run typed (Registration.registration_page accepts accepts accepts accepts)))
unfolding Registration.registration_page Registration.run Registration.step Registration.write
    Registration.receive_names Registration.receive_emails Registration.validate
    Registration.validate_duplicates TextField.set_text TextField.text_field TextField.set_error
write-run_example =
    write-run accepts accepts accepts accepts typed (refl, (refl, tt)) Registration.name_field bob
      differ

-- Arrays of one length have the same hash.
abbrev arrays : List (List ℕ)
arrays = (1 ∷ []) ∷ (2 ∷ []) ∷ [] ∷ []

cached_all_lem_example :
    (cached_all length (λ xs. xs) arrays []).1 ≡ first_widgets length (λ xs. xs) [] arrays
cached_all_lem_example = cached_all_lem length (λ xs. xs) arrays
