-- ===== src/Card/Modules/Views.antt =====
-- `#avatar` and `#menu`: by the state of the module.
use art_platform.Common.{ℕ, Bool, String, List, [], ◌∷◌}
use art_platform.Extensions.Arrays.{with_pushed}
use art_platform.Model.States.{ModuleState}
use art_platform.Model.Modules.{ModuleInformation}
use art_platform.Service.ModuleStates.{Color, calculate_module_state_color}

-- `CardAvatarProperties`; of the letter, the text whose first it is.
pub data Avatar : Type 0 where
  progress : Color → Avatar
  letter : String → Color → Avatar

-- `#avatar`, in the dark theme or the light one.
unfoldable pub avatar : ModuleInformation → Bool → Avatar
avatar m dark =
    let progress_shown = progress (calculate_module_state_color m.state dark) in
    let letter_shown = letter m.name (calculate_module_state_color m.state dark) in
    elim m.state [
      | ModuleState.installing ↦ progress_shown
      | ModuleState.installation_started ↦ progress_shown
      | ModuleState.update_started ↦ progress_shown
      | ModuleState.stop_started ↦ progress_shown
      | ModuleState.restart_started ↦ progress_shown
      | ModuleState.uninstall_started ↦ progress_shown
      | ModuleState.updating ↦ progress_shown
      | ModuleState.stopping ↦ progress_shown
      | ModuleState.restarting ↦ progress_shown
      | ModuleState.uninstalling ↦ progress_shown
      | ModuleState.not_installed ↦ letter_shown
      | ModuleState.invalid ↦ letter_shown
      | ModuleState.run ↦ letter_shown
      | ModuleState.stopped ↦ letter_shown
      | ModuleState.other s ↦ letter_shown
    ]

pub data Icon : Type 0 where
  library_add_outlined delete_outlined system_update_alt_outlined settings_outlined : Icon
  settings_backup_restore_outlined stop_outlined delete_sweep_outlined launch_outlined : Icon
  add_to_queue_outlined : Icon

-- What a click does: a method of the card, or a request of the API with the id of the module.
pub data Action : Type 0 where
  start_cloning_clicked start_updating_clicked deleting_opened : Action
  refresh_module_artifact restart_module stop_module delete_module_from_resource : ℕ → Action
  reinstall_module : ℕ → Action

pub record Button : Type 0 where
  pub tooltip : String
  pub icon : Icon
  pub on_click : Action

abbrev button : String → Icon → Action → Button
button tooltip icon on_click = record { tooltip = tooltip; icon = icon; on_click = on_click }

unfoldable pub changing_menu : List Button → List Button
unfolding with_pushed
changing_menu buttons = with_pushed (button "Удалить" delete_outlined deleting_opened) buttons

unfoldable pub run_menu : ℕ → List Button → List Button
unfolding with_pushed
run_menu id buttons = with_pushed (button "Удалить" delete_outlined deleting_opened) (
    with_pushed (button "Удалить с ресурса" delete_sweep_outlined (delete_module_from_resource id))
      (with_pushed (button "Остановить" stop_outlined (stop_module id)) (
        with_pushed (button "Перезапустить" settings_backup_restore_outlined (restart_module id)) (
          with_pushed (button "Изменить" settings_outlined start_updating_clicked) (
            with_pushed (button "Обновить" system_update_alt_outlined (refresh_module_artifact id))
              buttons)))))

unfoldable pub stopped_menu : ℕ → List Button → List Button
unfolding with_pushed
stopped_menu id buttons = with_pushed (button "Удалить" delete_outlined deleting_opened) (
    with_pushed (button "Удалить с ресурса" delete_sweep_outlined (delete_module_from_resource id))
      (with_pushed
        (button "Обновить и запустить" system_update_alt_outlined (refresh_module_artifact id))
        (with_pushed (button "Изменить" settings_outlined start_updating_clicked)
          (with_pushed (button "Запустить" launch_outlined (restart_module id)) buttons))))

unfoldable pub not_installed_menu : ℕ → List Button → List Button
unfolding with_pushed
not_installed_menu id buttons = with_pushed (button "Удалить" delete_outlined deleting_opened) (
    with_pushed (button "Установить повторно" add_to_queue_outlined (reinstall_module id))
      (with_pushed (button "Изменить" settings_outlined start_updating_clicked) buttons))

unfoldable pub default_menu : ℕ → List Button → List Button
unfolding with_pushed
default_menu id buttons = with_pushed (button "Удалить" delete_outlined deleting_opened) (
    with_pushed (button "Удалить с ресурса" delete_sweep_outlined (delete_module_from_resource id))
      (with_pushed (button "Установить повторно" add_to_queue_outlined (reinstall_module id))
        (with_pushed (button "Изменить" settings_outlined start_updating_clicked) buttons)))

-- `#menu`
unfoldable pub menu : ModuleInformation → List Button
unfolding changing_menu run_menu stopped_menu not_installed_menu default_menu
menu m =
    let buttons = button "Клонировать" library_add_outlined start_cloning_clicked ∷ [] in
    elim m.state [
      | ModuleState.installation_started ↦ changing_menu buttons
      | ModuleState.update_started ↦ changing_menu buttons
      | ModuleState.stop_started ↦ changing_menu buttons
      | ModuleState.restart_started ↦ changing_menu buttons
      | ModuleState.uninstall_started ↦ changing_menu buttons
      | ModuleState.updating ↦ changing_menu buttons
      | ModuleState.stopping ↦ changing_menu buttons
      | ModuleState.restarting ↦ changing_menu buttons
      | ModuleState.uninstalling ↦ changing_menu buttons
      | ModuleState.installing ↦ changing_menu buttons
      | ModuleState.run ↦ run_menu m.id buttons
      | ModuleState.stopped ↦ stopped_menu m.id buttons
      | ModuleState.not_installed ↦ not_installed_menu m.id buttons
      | ModuleState.invalid ↦ default_menu m.id buttons
      | ModuleState.other s ↦ default_menu m.id buttons
    ]
