-- ===== src/Events/Notifications.antt =====
-- streams/ModuleStream.ts, streams/ProjectStream.ts and streams/AssemblyStream.ts: what the user is
-- told of an event. A message is the list of the pieces of its template.
use art_platform.Common.{
  ◌≤◌, ◌≡◌, Bool, true, false, ◌||◌, Option, none, some, String, List, [], ◌∷◌, ◌++◌, append-nil,
  all, any, length, arith,
}
use art_platform.Model.States.{ModuleState}
use art_platform.Model.Modules.{Module}
use art_platform.Pattern.Stream.{
  EventType, updated, Stream, new_stream, subscribe_on_add, subscribe_on_delete,
  subscribe_on_update_many, produce_event,
}
use art_platform.Extensions.Maps.{has_key}
use art_platform.Service.ModuleStates.{module_is_changing}

pub data Level : Type 0 where
  success info warning error : Level

pub record Notification : Type 0 where
  pub level : Level
  pub message : List String

-- `Module & {projectName?: string}`
pub record ModuleEvent : Type 0 where
  pub value : Module
  pub project_name : Option String

abbrev told : Level → List String → List Notification
told level message = record { level = level; message = message } ∷ []

-- A text in a template; what is not there is printed as `undefined`.
abbrev printed : Option String → String
printed none = "undefined"
printed (some s) = s

-- The three subscribers of `subscribeOnModule`.
pub data Subscriber : Type 0 where
  on_added on_deleted on_updated : Subscriber

unfoldable pub module_added : ModuleEvent → List Notification
module_added e = told success (
    "Модуль "
    ∷ e.value.information.name
    ∷ " проекта "
    ∷ printed e.project_name
    ∷ " устанавливается"
    ∷ [])

unfoldable pub module_deleted : ModuleEvent → List Notification
module_deleted e = told info ("Модуль " ∷ e.value.information.name ∷ " удален" ∷ [])

-- `Модуль ${module.name} проекта ${module.projectName} ...`
abbrev of_module : Level → String → ModuleEvent → List Notification
of_module level happens e =
    told level
      ("Модуль " ∷ e.value.information.name ∷ " проекта " ∷ printed e.project_name ∷ happens ∷ [])

unfoldable pub module_updated : ModuleEvent → List Notification
module_updated e = elim e.value.information.state [
  | ModuleState.installation_started ↦ of_module info " переустанавливается" e
  | ModuleState.stop_started ↦ of_module info " останавливается" e
  | ModuleState.restart_started ↦ of_module info " запускается" e
  | ModuleState.update_started ↦ of_module info " обновляется" e
  | ModuleState.uninstall_started ↦ of_module info " удаляется" e
  | ModuleState.stopped ↦ of_module warning " остановлен" e
  | ModuleState.run ↦ of_module success " активен" e
  | ModuleState.not_installed ↦ of_module warning " удален с ресурса" e
  | ModuleState.invalid ↦ told error (
      "Не удалось завершить действие над модулем "
      ∷ e.value.information.name
      ∷ " проекта "
      ∷ printed e.project_name
      ∷ [])
  | ModuleState.installing ↦ []
  | ModuleState.updating ↦ []
  | ModuleState.stopping ↦ []
  | ModuleState.restarting ↦ []
  | ModuleState.uninstalling ↦ []
  | ModuleState.other s ↦ []
]

-- `subscribeOnModule`, on a stream whose other subscribers are those of pages and cards.
unfoldable pub subscribe_on_module : Stream Subscriber → Stream Subscriber
unfolding subscribe_on_add subscribe_on_delete subscribe_on_update_many
subscribe_on_module s =
    (subscribe_on_update_many on_updated
      (subscribe_on_delete on_deleted (subscribe_on_add on_added s).0).0).0

unfoldable pub notify : List (Subscriber × ModuleEvent) → List Notification
unfolding module_added module_deleted module_updated
notify [] = []
notify ((on_added, e) ∷ calls) = module_added e ++ notify calls
notify ((on_deleted, e) ∷ calls) = module_deleted e ++ notify calls
notify ((on_updated, e) ∷ calls) = module_updated e ++ notify calls

-- An event of a module in a stream that `activateModuleStream` made and `subscribeOnModule` was
-- called with.
unfoldable pub notifications_of : EventType → ModuleEvent → List Notification
unfolding subscribe_on_module produce_event notify
notifications_of t e =
    notify (produce_event (λ x. x.value.information.id) t e (subscribe_on_module new_stream))

abbrev is_info : Notification → Bool
is_info n = elim n.level [ info ↦ true | success ↦ false | warning ↦ false | error ↦ false ]

abbrev is_error : Notification → Bool
is_error n = elim n.level [ error ↦ true | success ↦ false | warning ↦ false | info ↦ false ]

abbrev is_other : ModuleState → Bool
is_other (ModuleState.other s) = true
is_other _ = false

abbrev is_invalid : ModuleState → Bool
is_invalid ModuleState.invalid = true
is_invalid _ = false

notifications_of-module_updated : (e : ModuleEvent) → notifications_of updated e ≡ module_updated e
unfolding notifications_of has_key
notifications_of-module_updated e = append-nil (module_updated e)

module_updated_lem :
    (e : ModuleEvent)
    → (length (module_updated e) ≤ 1)
      × (all is_info (module_updated e)
          ≡ (module_is_changing e.value.information.state || is_other e.value.information.state))
      × (any is_error (module_updated e) ≡ is_invalid e.value.information.state)
unfolding module_updated module_is_changing
module_updated_lem e = ground arith

-- Of an update of a module the user is told at most once: of nothing but a beginning exactly while
-- the module is changing or its state is unknown, and of a failure exactly where it is invalid.
pub notifications_of-updated :
    (e : ModuleEvent)
    → (length (notifications_of updated e) ≤ 1)
      × (all is_info (notifications_of updated e)
          ≡ (module_is_changing e.value.information.state || is_other e.value.information.state))
      × (any is_error (notifications_of updated e) ≡ is_invalid e.value.information.state)
notifications_of-updated e = rw (notifications_of-module_updated e) (module_updated_lem e)
