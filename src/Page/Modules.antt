-- ===== src/Page/Modules.antt =====
-- component/pages/module/ModulesPage.tsx: the cards of the modules that the filter lets through. A card
-- is known by the module that it was made for; its key is the id of the module (ModuleCard.tsx).
use art_platform.Common.{
  ℕ, ◌≡◌, refl, sym, ap, ◌∙◌, Bool, true, false, not, ◌&&◌, ◌||◌, String, List, [], ◌∷◌, map, any,
  filter, arith, if◌then◌else◌, ◌==◌, nat_eq, string_eq, ==_iff, Bool-cases, inl, inr,
}
use mathlib.Core.Path.{subst}
use art_platform.Model.Modules.{ModuleInformation}
use art_platform.Model.Projects.{ProjectVersion}
use art_platform.Extensions.Maps.{
  contains, Unique, contains-append, append-Unique, remove-Unique, contains-remove_iff,
}
use art_platform.Widget.Grid.{Grid, push_widget, remove_key, has_key, arrange_widgets}
use art_platform.Widget.Grid.Keys.{
  InSync, push_widget-InSync, remove_key-InSync, remove_key-keys, has_key-contains, Covers,
  arrange_widgets_lem,
}

abbrev pub card_key : ModuleInformation → ℕ
card_key m = m.id

abbrev pub Cards : Type 0
Cards = Grid ModuleInformation ℕ

-- `modules.forEach(module => { if (!this.#cards.hasKey(module.id)) ... })`
unfoldable pub push_missing : List ModuleInformation → Cards → Cards
push_missing [] cards = cards
push_missing (m ∷ modules) cards =
    push_missing modules
      (if has_key card_key m.id cards then cards else push_widget card_key m cards)

abbrev pub is_module : List ModuleInformation → ℕ → Bool
is_module modules k = any (λ m. m.id == k) modules

-- `this.#cards.keys().forEach(key => { if (!modules.some(...)) this.#cards.removeKey(key) })`
unfoldable pub remove_absent : List ModuleInformation → List ℕ → Cards → Cards
remove_absent modules [] cards = cards
remove_absent modules (k ∷ ks) cards =
    remove_absent modules ks (if is_module modules k then cards else remove_key card_key k cards)

-- `#refreshCards`, on the cards
unfoldable pub refresh_cards : List ModuleInformation → Bool → Cards → Cards
refresh_cards modules silent cards =
    let pushed = push_missing modules cards in
    let removed = remove_absent modules pushed.keys pushed in
    if silent then removed else arrange_widgets card_key (map (λ m. m.id) modules) removed

-- `#getVersions`, of the versions of the project
unfoldable pub get_versions : List ModuleInformation → List ProjectVersion → List ProjectVersion
get_versions modules versions =
    filter (λ version. any (λ m. m.artifact.version == version.version) modules) versions

-- `#getModuleCardsByVersion`: the ids of the cards under a version.
unfoldable pub cards_by_version : List ModuleInformation → String → List ℕ → List ℕ
cards_by_version modules version ids =
    filter (λ id. any (λ m. (m.id == id) && (m.artifact.version == version)) modules) ids

-- What the page keeps of its cards.
pub record IsKept (cards : Cards) : Type 0 where
  pub in_sync : InSync card_key cards
  pub unique : Unique cards.keys

push-IsKept :
    (m : ModuleInformation) (cards : Cards)
    → IsKept cards
    → IsKept (if has_key card_key m.id cards then cards else push_widget card_key m cards)
unfolding push_widget
push-IsKept m cards k = elim (Bool-cases (has_key card_key m.id cards)) [
  | inl here ↦ rw here k
  | inr away ↦ rw away (record {
    in_sync = push_widget-InSync card_key m cards k.in_sync;
    unique =
        append-Unique m.id cards.keys (sym (has_key-contains card_key m.id cards) ∙ away) k.unique;
  })
]

contains-push :
    (j : ℕ) (m : ModuleInformation) (cards : Cards)
    → contains j (if has_key card_key m.id cards then cards else push_widget card_key m cards).keys
      ≡ ((m.id == j) || contains j cards.keys)
unfolding push_widget contains
contains-push j m cards = ground (
  arith,
  has_key-contains card_key m.id cards,
  ==_iff m.id j,
  contains-append j cards.keys (m.id ∷ []),
)

push_missing-IsKept :
    (modules : List ModuleInformation) (cards : Cards)
    → IsKept cards
    → IsKept (push_missing modules cards)
unfolding push_missing
push_missing-IsKept [] cards k = k
push_missing-IsKept (m ∷ modules) cards k = push_missing-IsKept modules _ (push-IsKept m cards k)

contains-push_missing :
    (j : ℕ) (modules : List ModuleInformation) (cards : Cards)
    → contains j (push_missing modules cards).keys ≡ (is_module modules j || contains j cards.keys)
unfolding push_missing
contains-push_missing j [] cards = refl
contains-push_missing j (m ∷ modules) cards =
    let next : Cards =
      if has_key card_key m.id cards then cards else push_widget card_key m cards in
    ground (arith, contains-push_missing j modules next, contains-push j m cards)

remove_step-IsKept :
    (modules : List ModuleInformation) (k : ℕ) (cards : Cards)
    → IsKept cards
    → IsKept (if is_module modules k then cards else remove_key card_key k cards)
remove_step-IsKept modules k cards kept = elim (Bool-cases (is_module modules k)) [
  | inl here ↦ rw here kept
  | inr away ↦ rw away (record {
    in_sync = remove_key-InSync card_key k cards kept.in_sync;
    unique =
        subst Unique (sym (remove_key-keys card_key k cards))
          (remove-Unique k cards.keys kept.unique);
  })
]

remove_absent-IsKept :
    (modules : List ModuleInformation) (ks : List ℕ) (cards : Cards)
    → IsKept cards
    → IsKept (remove_absent modules ks cards)
unfolding remove_absent
remove_absent-IsKept modules [] cards kept = kept
remove_absent-IsKept modules (k ∷ ks) cards kept =
    remove_absent-IsKept modules ks _ (remove_step-IsKept modules k cards kept)

contains-remove_absent :
    (j : ℕ) (modules : List ModuleInformation) (ks : List ℕ) (cards : Cards)
    → IsKept cards
    → contains j (remove_absent modules ks cards).keys
      ≡ (contains j cards.keys && (is_module modules j || not (contains j ks)))
unfolding remove_absent contains
contains-remove_absent j modules [] cards kept = ground arith
contains-remove_absent j modules (k ∷ ks) cards kept =
    let next : Cards = if is_module modules k then cards else remove_key card_key k cards in
    ground (
      arith,
      ==_iff k j,
      contains-remove_absent j modules ks next (remove_step-IsKept modules k cards kept),
      remove_key-keys card_key k cards,
      contains-remove_iff k j cards.keys kept.unique,
    )

is_module-contains :
    (k : ℕ) (modules : List ModuleInformation)
    → is_module modules k ≡ contains k (map (λ m. m.id) modules)
unfolding contains
is_module-contains k [] = refl
is_module-contains k (m ∷ modules) = ap (λ b. (m.id == k) || b) (is_module-contains k modules)

contains-Covers :
    (ks : List ℕ) (cards : List ModuleInformation)
    → ((k : ℕ) → contains k ks ≡ true → contains k (map card_key cards) ≡ true)
    → Covers card_key ks cards
unfolding contains
contains-Covers [] cards h = tt
contains-Covers (k ∷ ks) cards h = (
  h k (ground (arith, ==_iff k k)),
  contains-Covers ks cards (λ j in_ks. h j (ground (arith, in_ks))),
)

-- What is left of the cards before they are arranged.
abbrev remaining : List ModuleInformation → Cards → Cards
remaining modules cards =
    let pushed = push_missing modules cards in remove_absent modules pushed.keys pushed

remaining-IsKept :
    (modules : List ModuleInformation) (cards : Cards)
    → IsKept cards
    → IsKept (remaining modules cards)
remaining-IsKept modules cards kept =
    remove_absent-IsKept modules (push_missing modules cards).keys (push_missing modules cards)
      (push_missing-IsKept modules cards kept)

contains-remaining :
    (k : ℕ) (modules : List ModuleInformation) (cards : Cards)
    → IsKept cards
    → contains k (remaining modules cards).keys ≡ is_module modules k
contains-remaining k modules cards kept =
    let pushed = push_missing modules cards in
    ground (
      arith,
      contains-push_missing k modules cards,
      contains-remove_absent k modules pushed.keys pushed (push_missing-IsKept modules cards kept),
    )

-- Of a grid whose keys are those of its cards, each once, a silent refresh leaves exactly the cards of the modules that were answered, each once, and the
-- keys of the grid are those of its cards.
pub refresh_cards-silent :
    (modules : List ModuleInformation) (cards : Cards)
    → IsKept cards
    → let refreshed = refresh_cards modules true cards in
      ((k : ℕ) → contains k refreshed.keys ≡ contains k (map (λ m. m.id) modules))
      × IsKept refreshed
unfolding refresh_cards
refresh_cards-silent modules cards kept = (
  λ k. contains-remaining k modules cards kept ∙ is_module-contains k modules,
  remaining-IsKept modules cards kept,
)

-- Of a grid whose keys are those of its cards, each once, a refresh that is not silent leaves exactly the cards of the modules that were answered, in their
-- order, and the keys of the grid are those of its cards.
pub refresh_cards-arranged :
    (modules : List ModuleInformation) (cards : Cards)
    → IsKept cards
    → let refreshed = refresh_cards modules false cards in
      (refreshed.keys ≡ map (λ m. m.id) modules) × InSync card_key refreshed
unfolding refresh_cards
refresh_cards-arranged modules cards kept =
    let left = remaining modules cards in
    arrange_widgets_lem card_key (map (λ m. m.id) modules) left (
      contains-Covers (map (λ m. m.id) modules) left.items (λ k in_ids.
        ap (contains k) (sym (remaining-IsKept modules cards kept).in_sync)
        ∙ contains-remaining k modules cards kept
        ∙ is_module-contains k modules
        ∙ in_ids))
