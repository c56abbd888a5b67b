-- ===== src/Card/Modules/Menus.antt =====
-- The menu and the avatar against the test `moduleIsChanging`.
use art_platform.Common.{ℕ, ◌≡◌, Bool, true, false, not, any, all, arith, ◌==◌, nat_eq, ==_iff}
use art_platform.Model.Modules.{ModuleInformation}
use art_platform.Service.ModuleStates.{module_is_changing}
use art_platform.Card.Modules.Views.{
  Avatar, progress, letter, avatar, Button, start_cloning_clicked, start_updating_clicked,
  deleting_opened, refresh_module_artifact, restart_module, stop_module,
  delete_module_from_resource, reinstall_module, menu,
}

abbrev pub is_progress : Avatar → Bool
is_progress (progress color) = true
is_progress (letter name color) = false

-- The avatar of a card turns exactly while the module is changing.
pub avatar_lem :
    (m : ModuleInformation) (dark : Bool) → is_progress (avatar m dark) ≡ module_is_changing m.state
unfolding avatar module_is_changing
avatar_lem m dark = ground arith

-- The tests of a button by what its click does.
abbrev pub opens_update : Button → Bool
opens_update b = elim b.on_click [ start_updating_clicked ↦ true | other ↦ false ]

abbrev pub opens_clone : Button → Bool
opens_clone b = elim b.on_click [ start_cloning_clicked ↦ true | other ↦ false ]

abbrev pub opens_deletion : Button → Bool
opens_deletion b = elim b.on_click [ deleting_opened ↦ true | other ↦ false ]

-- Whether a click asks the API for something, and whether it asks for no module but the given one.
abbrev pub requests : Button → Bool
requests b = elim b.on_click [
  | start_cloning_clicked ↦ false
  | start_updating_clicked ↦ false
  | deleting_opened ↦ false
  | other ↦ true
]

abbrev pub requests_for : ℕ → Button → Bool
requests_for id b = elim b.on_click [
  | start_cloning_clicked ↦ true
  | start_updating_clicked ↦ true
  | deleting_opened ↦ true
  | refresh_module_artifact i ↦ i == id
  | restart_module i ↦ i == id
  | stop_module i ↦ i == id
  | delete_module_from_resource i ↦ i == id
  | reinstall_module i ↦ i == id
]

-- The card always offers to clone and to delete its module. Exactly while the module is not
-- changing it offers to edit it, and buttons that ask the API for something; what they ask is about
-- this module.
pub menu_lem :
    (m : ModuleInformation)
    → (any opens_clone (menu m) ≡ true)
      × (any opens_deletion (menu m) ≡ true)
      × (any opens_update (menu m) ≡ not (module_is_changing m.state))
      × (any requests (menu m) ≡ not (module_is_changing m.state))
      × (all (requests_for m.id) (menu m) ≡ true)
unfolding menu module_is_changing
menu_lem m = ground (arith, ==_iff m.id m.id)
