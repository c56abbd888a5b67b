-- ===== src/Card/Modules/Defs.antt =====
-- The class `ModuleCard`: the module that it has loaded, the loads that are not answered, and whether
-- the dialogs are spawned. A load is begun by a click on the card, so that the card is drawn, and the
-- consumer of the module sets its attributes, which may throw.
use art_platform.Common.{
  ℕ, Bool, true, false, not, ◌&&◌, Option, none, some, String, List, [], ◌∷◌, ◌++◌, get_elem?,
  remove_at, if◌then◌else◌,
}
use art_platform.Model.Modules.{ModuleInformation, Module}
use art_platform.Card.Modules.Attributes.{attributes, is_missing}

-- The argument `onComplete` of `#loadModule`.
pub data OnComplete : Type 0 where
  do_nothing spawn_updating spawn_cloning : OnComplete

-- `project` is the name of the project; `module_there` is the condition on the free name `module`.
pub record Card : Type 0 where
  pub properties : ModuleInformation
  pub project : String
  pub module_there : Bool
  pub module_value : Option Module
  pub loads : List OnComplete
  -- `#spawned` of the optional dialogs
  pub updating_dialog : Bool
  pub cloning_dialog : Bool

-- The requests of the API; the calls of `spawn`, and when such a call opens a dialog that was not open
-- and a dialog that is open is closed; and `onComplete` that is not called, since the attributes throw.
pub data Call : Type 0 where
  module_requested : ℕ → Call
  updating_spawned updating_opened updating_closed : Call
  cloning_spawned cloning_opened cloning_closed : Call
  completion_lost : OnComplete → Call

abbrev pub new_card : ModuleInformation → String → Bool → Card
new_card m project module_there = record {
  properties = m;
  project = project;
  module_there = module_there;
  module_value = none;
  loads = [];
  updating_dialog = false;
  cloning_dialog = false;
}

-- `#module()`
unfoldable pub current_module : Card → ModuleInformation
current_module c = elim c.module_value [ none ↦ c.properties | some m ↦ m.information ]

unfoldable pub load_module : OnComplete → Card → Card × List Call
load_module on_complete c = elim c.module_value [
  | none ↦ (record c { loads = c.loads ++ on_complete ∷ [] }, module_requested c.properties.id ∷ [])
  | some m ↦ (c, [])
]

-- `#updatingDialog.spawn` and `#cloningDialog.spawn`, and the closing of these dialogs.
unfoldable pub open_updating : Card → Card × List Call
open_updating c = (
  record c { updating_dialog = true },
  updating_spawned ∷ (if c.updating_dialog then [] else updating_opened ∷ []),
)

unfoldable pub open_cloning : Card → Card × List Call
open_cloning c = (
  record c { cloning_dialog = true },
  cloning_spawned ∷ (if c.cloning_dialog then [] else cloning_opened ∷ []),
)

unfoldable pub close_updating : Card → Card × List Call
close_updating c =
    (record c { updating_dialog = false }, if c.updating_dialog then updating_closed ∷ [] else [])

unfoldable pub close_cloning : Card → Card × List Call
close_cloning c =
    (record c { cloning_dialog = false }, if c.cloning_dialog then cloning_closed ∷ [] else [])

unfoldable pub start_updating : Card → Card × List Call
unfolding load_module open_updating
start_updating c = elim c.module_value [
  | none ↦ load_module spawn_updating c
  | some m ↦ open_updating c
]

unfoldable pub start_cloning : Card → Card × List Call
unfolding load_module open_cloning
start_cloning c = elim c.module_value [
  | none ↦ load_module spawn_cloning c
  | some m ↦ open_cloning c
]

-- `expanded => expanded && this.#loadModule()`
unfoldable pub change_expansion : Bool → Card → Card × List Call
unfolding load_module
change_expansion true c = load_module do_nothing c
change_expansion false c = (c, [])

unfoldable pub complete : OnComplete → Card → Card × List Call
unfolding open_updating open_cloning
complete do_nothing c = (c, [])
complete spawn_updating c = open_updating c
complete spawn_cloning c = open_cloning c

-- `equal` is the deep equality of modules that properties use.
module _ (equal : Module → Module → Bool) where
  -- Whether `configuration.module.set` throws: its consumer is called where the value differs.
  unfoldable pub set_throws : Module → Card → Bool
  unfolding attributes
  set_throws m c = elim c.module_value [
    | none ↦ is_missing (attributes c.module_there c.project m)
    | some old ↦ not (equal old m) && is_missing (attributes c.module_there c.project m)
  ]

  -- The load at an index is answered: the value is there before the consumer is called.
  unfoldable pub answer : ℕ → Module → Card → Card × List Call
  unfolding set_throws complete
  answer i m c = elim (get_elem? c.loads i) [
    | none ↦ (c, [])
    | some on_complete ↦
        let assigned = record c { module_value = some m; loads = remove_at i c.loads } in
        if set_throws m c
        then (assigned, completion_lost on_complete ∷ [])
        else complete on_complete assigned
  ]

-- `module_updated` is an event of the stream of modules for this one.
pub data Event : Type 0 where
  updating_clicked cloning_clicked : Event
  updating_dismissed cloning_dismissed : Event
  expansion_changed : Bool → Event
  answered : ℕ → Module → Event
  module_updated : Module → Event

module _ (equal : Module → Module → Bool) where
  unfoldable pub step : Event → Card → Card × List Call
  unfolding start_updating start_cloning close_updating close_cloning change_expansion answer
  step updating_clicked c = start_updating c
  step cloning_clicked c = start_cloning c
  step updating_dismissed c = close_updating c
  step cloning_dismissed c = close_cloning c
  step (expansion_changed expanded) c = change_expansion expanded c
  step (answered i m) c = answer equal i m c
  step (module_updated m) c = (record c { module_value = some m }, [])

  unfoldable pub run : List Event → Card → Card × List Call
  run [] c = (c, [])
  run (event ∷ events) c =
      let first = step event c in let rest = run events first.0 in (rest.0, first.1 ++ rest.1)
