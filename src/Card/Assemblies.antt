-- ===== src/Card/Assemblies.antt =====
-- component/embeddable/assembly/AssemblyCard.tsx: the avatar, the menu and the attributes of the card
-- of an assembly. The icons are the values that they show; what is read from the loaded assembly is
-- an argument.
use art_platform.Common.{
  ℕ, ◌≡◌, Bool, true, false, not, ◌&&◌, ◌||◌, some, String, List, [], ◌∷◌, ◌++◌, any, length,
  nat_beq, arith, if◌then◌else◌,
}
use art_platform.Extensions.Arrays.{with_pushed}
use art_platform.Model.States.{AssemblyState}
use art_platform.Model.Resources.{ResourceType}
use art_platform.Model.Modules.{AssembledArtifact}
use art_platform.Model.Assemblies.{AssemblyInformation, ArtifactConfiguration}
use art_platform.Service.ModuleService.{assembly_is_running, is_filled}

pub data Avatar : Type 0 where
  progress_primary progress_green : Avatar
  cancel_icon block_icon done_icon : Avatar

-- `#avatar`
unfoldable pub avatar : AssemblyState → Avatar
avatar AssemblyState.started = progress_primary
avatar AssemblyState.restarted = progress_primary
avatar AssemblyState.started_on_resource = progress_green
avatar AssemblyState.building = progress_green
avatar AssemblyState.failed = cancel_icon
avatar AssemblyState.canceled = block_icon
avatar AssemblyState.done = done_icon
avatar (AssemblyState.other s) = progress_primary

-- What a click does.
pub data Action : Type 0 where
  deleting_opened cancellation_opened logs_spawned modules_spawned : Action
  rebuild_project : ℕ → Action

pub record Button : Type 0 where
  pub tooltip : String
  pub on_click : Action

abbrev button : String → Action → Button
button tooltip on_click = record { tooltip = tooltip; on_click = on_click }

unfoldable pub started_menu : List Button → List Button
unfolding with_pushed
started_menu buttons = with_pushed (button "Отменить" cancellation_opened) buttons

unfoldable pub building_menu : List Button → List Button
unfolding with_pushed
building_menu buttons =
    with_pushed (button "Отменить" cancellation_opened)
      (with_pushed (button "Показать логи" logs_spawned) buttons)

unfoldable pub done_menu : ℕ → List Button → List Button
unfolding with_pushed
done_menu id buttons = with_pushed (button "Перезапустить" (rebuild_project id)) (
    with_pushed (button "Показать логи" logs_spawned)
      (with_pushed (button "Установить модули" modules_spawned) buttons))

unfoldable pub failed_menu : ℕ → List Button → List Button
unfolding with_pushed
failed_menu id buttons =
    with_pushed (button "Перезапустить" (rebuild_project id))
      (with_pushed (button "Показать логи" logs_spawned) buttons)

-- `#menu`, of the state that the card has and the id of its properties.
unfoldable pub menu : AssemblyState → ℕ → List Button
unfolding started_menu building_menu done_menu failed_menu
menu state id =
    let buttons = button "Удалить" deleting_opened ∷ [] in
    elim state [
      | AssemblyState.restarted ↦ started_menu buttons
      | AssemblyState.started ↦ started_menu buttons
      | AssemblyState.started_on_resource ↦ building_menu buttons
      | AssemblyState.building ↦ building_menu buttons
      | AssemblyState.done ↦ done_menu id buttons
      | AssemblyState.failed ↦ failed_menu id buttons
      | AssemblyState.canceled ↦ failed_menu id buttons
      | AssemblyState.other s ↦ buttons
    ]

pub data Attribute : Type 0 where
  project_of technology_of : String → Attribute
  resource_of : String → ResourceType → Attribute
  artifacts_of : List AssembledArtifact → Attribute
  expected_of : List ArtifactConfiguration → Attribute
  started_at failed_at done_at canceled_at : ℕ → Attribute
  -- from the end to the start
  duration_of : ℕ → ℕ → Attribute

-- The marks of the end, by the state.
unfoldable pub end_attributes : AssemblyState → ℕ → ℕ → List Attribute
end_attributes AssemblyState.failed start end = failed_at end ∷ duration_of end start ∷ []
end_attributes AssemblyState.done start end = done_at end ∷ duration_of end start ∷ []
end_attributes AssemblyState.canceled start end = canceled_at end ∷ duration_of end start ∷ []
end_attributes _ start end = []

abbrev filled_list {ℓ} : {A : Type ℓ} → (List A → Attribute) → List A → List Attribute
filled_list f xs = if nat_beq (length xs) 0 then [] else f xs ∷ []

-- `#attributes`: the artifacts and their configurations are those of the assembly that is loaded, or
-- empty; the resource and the version are there.
unfoldable pub attributes :
    String
    → AssemblyInformation
    → List AssembledArtifact
    → List ArtifactConfiguration
    → List Attribute
unfolding end_attributes
attributes project a artifacts expected =
    (project_of project ∷ resource_of a.resource_id.name a.resource_id.type ∷ [])
    ++ ((if is_filled a.technology then technology_of a.technology ∷ [] else [])
        ++ (filled_list artifacts_of artifacts
            ++ (filled_list expected_of expected
                ++ (if nat_beq a.start_time_stamp 0 || nat_beq a.end_time_stamp 0
                    then []
                    else started_at a.start_time_stamp
                      ∷ end_attributes a.state a.start_time_stamp a.end_time_stamp))))

abbrev pub cancels : Button → Bool
cancels b = elim b.on_click [ cancellation_opened ↦ true | other ↦ false ]

abbrev pub rebuilds : Button → Bool
rebuilds b = elim b.on_click [ rebuild_project id ↦ true | other ↦ false ]

abbrev pub is_progress : Avatar → Bool
is_progress progress_primary = true
is_progress progress_green = true
is_progress _ = false

abbrev pub is_started : AssemblyState → Bool
is_started AssemblyState.started = true
is_started _ = false

abbrev pub is_other : AssemblyState → Bool
is_other (AssemblyState.other s) = true
is_other _ = false

-- The card of an assembly offers to cancel it exactly while `assemblyIsRunning`, and also in the
-- state that it is started in, for which that test is false. It never offers to cancel and to
-- rebuild an assembly at once, and one of both unless the state is unknown; and the avatar turns
-- exactly where there is nothing to rebuild.
pub menu-assembly_is_running :
    (a : AssemblyInformation) (id : ℕ)
    → (any cancels (menu a.state id) ≡ (assembly_is_running (some a) || is_started a.state))
      × ((any cancels (menu a.state id) && any rebuilds (menu a.state id)) ≡ false)
      × ((any cancels (menu a.state id) || any rebuilds (menu a.state id)) ≡ not (is_other a.state))
      × (is_progress (avatar a.state) ≡ not (any rebuilds (menu a.state id)))
unfolding menu avatar assembly_is_running
menu-assembly_is_running a id = ground arith
