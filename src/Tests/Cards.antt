-- ===== src/Tests/Cards.antt =====
-- The cards of a module and of an assembly.
use art_platform.Common.{
  Bool, nat_beq, ◌≡◌, true, false, not, ◌&&◌, ◌||◌, none, List, [], ◌∷◌, any, all,
}
use art_platform.Tests.Data.{module_with, cluster}
use art_platform.Model.States.{AssemblyState}
use art_platform.Model.Modules.{Module}
use art_platform.Model.Assemblies.{AssemblyInformation}
use art_platform.Service.ModuleStates.{module_is_changing}
use art_platform.Service.ModuleService.{assembly_is_running}
use art_platform.Card.Modules as Cards
use art_platform.Card.Modules.Menus as Menus
use art_platform.Card.Modules.Attributes as Attributes
use art_platform.Card.Modules.Dialogs as Dialogs
use art_platform.Card.Assemblies as Assemblies

-- A module that runs.
abbrev shop : Module
shop = module_with none

menu_lem_example :
    (any Menus.opens_clone (Cards.menu shop.information) ≡ true)
    × (any Menus.opens_deletion (Cards.menu shop.information) ≡ true)
    × (any Menus.opens_update (Cards.menu shop.information) ≡ true)
    × (any Menus.requests (Cards.menu shop.information) ≡ true)
    × (all (Menus.requests_for 5) (Cards.menu shop.information) ≡ true)
unfolding module_is_changing
menu_lem_example = Menus.menu_lem shop.information

-- Its ports are not mapped.
attributes_thrown_example : Attributes.is_missing (Attributes.attributes true "market" shop) ≡ true
attributes_thrown_example = Attributes.attributes_thrown true "market" shop

-- Two clicks, and the answer of the second, whose attributes throw.
abbrev clicked : List Cards.Event
clicked = Cards.updating_clicked ∷ Cards.updating_clicked ∷ Cards.answered 1 shop ∷ []

abbrev same_id : Module → Module → Bool
same_id m n = nat_beq m.information.id n.information.id

abbrev build : AssemblyInformation
build = record {
  id = 4;
  project_id = 3;
  technology = "gradle";
  version = record { reference = "main"; version = "1.0" };
  state = AssemblyState.started;
  start_time_stamp = 0;
  end_time_stamp = 0;
  resource_id = cluster;
  log_id = 9;
  artifacts = [];
}

menu-assembly_is_running_example :
    (any Assemblies.cancels (Assemblies.menu build.state 4) ≡ true)
    × ((any Assemblies.cancels (Assemblies.menu build.state 4)
          && any Assemblies.rebuilds (Assemblies.menu build.state 4))
        ≡ false)
    × ((any Assemblies.cancels (Assemblies.menu build.state 4)
          || any Assemblies.rebuilds (Assemblies.menu build.state 4))
        ≡ true)
    × (Assemblies.is_progress (Assemblies.avatar build.state)
        ≡ not (any Assemblies.rebuilds (Assemblies.menu build.state 4)))
unfolding assembly_is_running
menu-assembly_is_running_example = Assemblies.menu-assembly_is_running build 4
