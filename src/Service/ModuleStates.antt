-- ===== src/Service/ModuleStates.antt =====
-- constants/ModuleStateConstants.ts: how the state of a module is shown. A colour of the palette
-- is a name; the theme is dark or light.
use art_platform.Common.{
  ◌≡◌, ◌≢◌, ◌⊎◌, ◌↔◌, refl, Bool, true, false, String, List, [], ◌∷◌, arith, if◌then◌else◌, All,
}
use art_platform.Model.States.{ModuleState}

-- The colours used, as in purple['800'], orange['700'], ...
pub data Color : Type 0 where
  purple_800 orange_700 light_blue_700 grey_700 red_700 green_700 : Color

pub record FilteringState : Type 0 where
  pub state : ModuleState
  pub label : String
  pub color : Color

abbrev pub module_filterable_states : List (List FilteringState)
module_filterable_states =
    (record { state = ModuleState.installing; label = "Устанавливается"; color = purple_800 }
      ∷ record { state = ModuleState.run; label = "Запущен"; color = green_700 }
      ∷ record { state = ModuleState.invalid; label = "Поврежден"; color = red_700 }
      ∷ record { state = ModuleState.stopped; label = "Остановлен"; color = light_blue_700 }
      ∷ record { state = ModuleState.not_installed; label = "Не установлен"; color = grey_700 }
      ∷ [])
    ∷ (record { state = ModuleState.restarting; label = "Запускается"; color = orange_700 }
        ∷ record { state = ModuleState.updating; label = "Обновляется"; color = orange_700 }
        ∷ record { state = ModuleState.stopping; label = "Останавливается"; color = orange_700 }
        ∷ record { state = ModuleState.uninstalling; label = "Удаляется"; color = orange_700 }
        ∷ [])
    ∷ []

-- `translateModuleStateToHuman`
unfoldable pub translate_module_state_to_human : ModuleState → String
translate_module_state_to_human ModuleState.installation_started = "Устанавливается"
translate_module_state_to_human ModuleState.installing = "Устанавливается"
translate_module_state_to_human ModuleState.update_started = "Обновляется"
translate_module_state_to_human ModuleState.updating = "Обновляется"
translate_module_state_to_human ModuleState.stop_started = "Останавливается"
translate_module_state_to_human ModuleState.stopping = "Останавливается"
translate_module_state_to_human ModuleState.restart_started = "Запускается"
translate_module_state_to_human ModuleState.restarting = "Запускается"
translate_module_state_to_human ModuleState.uninstall_started = "Удаляется"
translate_module_state_to_human ModuleState.uninstalling = "Удаляется"
translate_module_state_to_human ModuleState.stopped = "Остановлен"
translate_module_state_to_human ModuleState.not_installed = "Не установлен"
translate_module_state_to_human ModuleState.invalid = "Поврежден"
translate_module_state_to_human ModuleState.run = "Запущен"
translate_module_state_to_human (ModuleState.other s) = "Поврежден"

-- `calculateModuleStateColor`; the colours of the dark and of the light theme are constants of
-- their own in the source, with the same values.
unfoldable pub calculate_module_state_color : ModuleState → Bool → Color
calculate_module_state_color ModuleState.installation_started dark =
    if dark then purple_800 else purple_800
calculate_module_state_color ModuleState.installing dark = if dark then purple_800 else purple_800
calculate_module_state_color ModuleState.update_started dark =
    if dark then orange_700 else orange_700
calculate_module_state_color ModuleState.updating dark = if dark then orange_700 else orange_700
calculate_module_state_color ModuleState.restart_started dark =
    if dark then orange_700 else orange_700
calculate_module_state_color ModuleState.restarting dark = if dark then orange_700 else orange_700
calculate_module_state_color ModuleState.uninstall_started dark =
    if dark then orange_700 else orange_700
calculate_module_state_color ModuleState.uninstalling dark = if dark then orange_700 else orange_700
calculate_module_state_color ModuleState.stop_started dark = if dark then orange_700 else orange_700
calculate_module_state_color ModuleState.stopping dark = if dark then orange_700 else orange_700
calculate_module_state_color ModuleState.stopped dark =
    if dark then light_blue_700 else light_blue_700
calculate_module_state_color ModuleState.not_installed dark = if dark then grey_700 else grey_700
calculate_module_state_color ModuleState.invalid dark = if dark then red_700 else red_700
calculate_module_state_color ModuleState.run dark = if dark then green_700 else green_700
calculate_module_state_color (ModuleState.other s) dark = if dark then red_700 else red_700

-- `calculateModuleStateChipStyles`
unfoldable pub calculate_module_state_chip_styles : ModuleState → String
calculate_module_state_chip_styles ModuleState.installation_started = "installingChip"
calculate_module_state_chip_styles ModuleState.installing = "installingChip"
calculate_module_state_chip_styles ModuleState.update_started = "changingChip"
calculate_module_state_chip_styles ModuleState.updating = "changingChip"
calculate_module_state_chip_styles ModuleState.restart_started = "changingChip"
calculate_module_state_chip_styles ModuleState.restarting = "changingChip"
calculate_module_state_chip_styles ModuleState.uninstall_started = "changingChip"
calculate_module_state_chip_styles ModuleState.uninstalling = "changingChip"
calculate_module_state_chip_styles ModuleState.stop_started = "changingChip"
calculate_module_state_chip_styles ModuleState.stopping = "changingChip"
calculate_module_state_chip_styles ModuleState.stopped = "stoppedChip"
calculate_module_state_chip_styles ModuleState.not_installed = "notInstalledChip"
calculate_module_state_chip_styles ModuleState.invalid = "invalidChip"
calculate_module_state_chip_styles ModuleState.run = "runningChip"
calculate_module_state_chip_styles (ModuleState.other s) = "invalidChip"

-- `calculateModuleStateChipColor`
unfoldable pub calculate_module_state_chip_color : ModuleState → Color
calculate_module_state_chip_color ModuleState.installation_started = purple_800
calculate_module_state_chip_color ModuleState.installing = purple_800
calculate_module_state_chip_color ModuleState.update_started = orange_700
calculate_module_state_chip_color ModuleState.updating = orange_700
calculate_module_state_chip_color ModuleState.restart_started = orange_700
calculate_module_state_chip_color ModuleState.restarting = orange_700
calculate_module_state_chip_color ModuleState.uninstall_started = orange_700
calculate_module_state_chip_color ModuleState.uninstalling = orange_700
calculate_module_state_chip_color ModuleState.stop_started = orange_700
calculate_module_state_chip_color ModuleState.stopping = orange_700
calculate_module_state_chip_color ModuleState.stopped = light_blue_700
calculate_module_state_chip_color ModuleState.not_installed = grey_700
calculate_module_state_chip_color ModuleState.invalid = red_700
calculate_module_state_chip_color ModuleState.run = green_700
calculate_module_state_chip_color (ModuleState.other s) = green_700

-- `moduleIsChanging` of service/ModuleService.ts
unfoldable pub module_is_changing : ModuleState → Bool
module_is_changing ModuleState.not_installed = false
module_is_changing ModuleState.invalid = false
module_is_changing ModuleState.stopped = false
module_is_changing ModuleState.run = false
module_is_changing ModuleState.installation_started = true
module_is_changing ModuleState.update_started = true
module_is_changing ModuleState.restarting = true
module_is_changing ModuleState.updating = true
module_is_changing ModuleState.installing = true
module_is_changing ModuleState.uninstall_started = true
module_is_changing ModuleState.restart_started = true
module_is_changing ModuleState.stop_started = true
module_is_changing ModuleState.stopping = true
module_is_changing ModuleState.uninstalling = true
module_is_changing (ModuleState.other s) = false

-- The state is one that constants/States.ts names.
abbrev pub IsKnown : ModuleState → Type 0
IsKnown s = (t : String) → s ≢ ModuleState.other t

-- For a state that the platform names, the chip has the colour that the card has.
pub chip_color-eq-color :
    (s : ModuleState) (dark : Bool)
    → IsKnown s
    → calculate_module_state_chip_color s ≡ calculate_module_state_color s dark
unfolding calculate_module_state_chip_color calculate_module_state_color
chip_color-eq-color (ModuleState.other t) dark known = absurd (known t refl)
chip_color-eq-color ModuleState.installing dark known = ground arith
chip_color-eq-color _ dark known = ground arith

-- Of a state with another text the chip is green as for a running module, while the card is red and
-- the label and the style are those of an invalid module.
pub chip_color_of_other :
    (t : String) (dark : Bool)
    → (calculate_module_state_chip_color (ModuleState.other t)
        ≡ calculate_module_state_chip_color ModuleState.run)
      × (calculate_module_state_color (ModuleState.other t) dark
          ≡ calculate_module_state_color ModuleState.invalid dark)
      × (translate_module_state_to_human (ModuleState.other t)
          ≡ translate_module_state_to_human ModuleState.invalid)
      × (calculate_module_state_chip_styles (ModuleState.other t)
          ≡ calculate_module_state_chip_styles ModuleState.invalid)
unfolding calculate_module_state_chip_color calculate_module_state_color
    translate_module_state_to_human calculate_module_state_chip_styles
chip_color_of_other t true = (refl, refl, refl, refl)
chip_color_of_other t false = (refl, refl, refl, refl)

-- A module is changing exactly if its card has the colour of an installation or of a change.
pub module_is_changing_iff :
    (s : ModuleState) (dark : Bool)
    → (module_is_changing s ≡ true) ↔ (
        (calculate_module_state_color s dark ≡ purple_800)
        ⊎ (calculate_module_state_color s dark ≡ orange_700))
unfolding module_is_changing calculate_module_state_color
module_is_changing_iff ModuleState.installing dark = ground arith
module_is_changing_iff _ dark = ground arith

-- Every entry of the filter has the label and the colour under which a module of its state is shown.
abbrev IsShownAsListed : Bool → FilteringState → Type 0
IsShownAsListed dark f =
    (f.label ≡ translate_module_state_to_human f.state)
    × (f.color ≡ calculate_module_state_color f.state dark)

pub filterable_states_agree :
    (dark : Bool) → All (All (IsShownAsListed dark)) module_filterable_states
unfolding translate_module_state_to_human calculate_module_state_color
filterable_states_agree true = ground arith
filterable_states_agree false = ground arith
