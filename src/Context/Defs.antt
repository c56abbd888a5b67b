-- ===== src/Context/Defs.antt =====
-- The class `PlatformContext`: its state, the loads that it includes, its rendering. A call of a
-- load is the action of the synchronizer; its answer is a report to `process`.
use art_platform.Common.{
  ℕ, Bool, true, false, none, some, List, [], ◌∷◌, ◌++◌, any, if◌then◌else◌, String, map, string_eq,
  zero, suc,
}
use art_platform.Extensions.Maps.{get, set}
use art_platform.Pattern.Synchronizer.{
  Synchronizer, Call, action_called, started, completed, new_synchronizer, add_action, add_on_start,
  add_on_complete, reset, start, process,
}

pub data State : Type 0 where
  created loading initialized : State

pub data Loader : Type 0 where
  applications assemblies modules projects resources prepared_configurations : Loader

-- What the synchronizer is given: the loads, and the three listeners.
pub data Action : Type 0 where
  load : Loader → Action
  pause continue set_initialized : Action

pub record Context : Type 0 where
  pub state : State
  pub with_applications : Bool
  pub with_assemblies : Bool
  pub with_modules : Bool
  pub with_projects : Bool
  pub with_resources : Bool
  pub with_prepared_configurations : Bool
  pub synchronizer : Synchronizer Action

abbrev pub new_context : Context
new_context = record {
  state = created;
  with_applications = false;
  with_assemblies = false;
  with_modules = false;
  with_projects = false;
  with_resources = false;
  with_prepared_configurations = false;
  synchronizer = new_synchronizer;
}

-- The six `include` methods.
unfoldable pub include : Loader → Context → Context
include applications c = record c { with_applications = true }
include assemblies c = record c { with_assemblies = true }
include modules c = record c { with_modules = true }
include projects c = record c { with_projects = true }
include resources c = record c { with_resources = true }
include prepared_configurations c = record c { with_prepared_configurations = true }

unfoldable pub reload : Context → Context
unfolding reset
reload c = record c { state = created; synchronizer = reset c.synchronizer }

-- `if (flag) synchronizer.action(() => loader().load(synchronizer.process))`
unfoldable pub action_if : Bool → Loader → Synchronizer Action → Synchronizer Action
unfolding add_action
action_if flag loader s = if flag then add_action (load loader) s else s

unfoldable pub request_loads : Context → Synchronizer Action → Synchronizer Action
request_loads c s = action_if c.with_prepared_configurations prepared_configurations (
    action_if c.with_resources resources (
      action_if c.with_projects projects (
        action_if c.with_modules modules
          (action_if c.with_assemblies assemblies (action_if c.with_applications applications s)))))

-- The function `action` of the constructor.
unfoldable pub register : Context → Context
unfolding add_on_complete
register c = elim c.state [
  | created ↦ record c {
    state = loading;
    synchronizer = request_loads c (add_on_complete set_initialized c.synchronizer);
  }
  | loading ↦ c
  | initialized ↦ c
]

abbrev pub is_set_initialized : Action → Bool
is_set_initialized (load loader) = false
is_set_initialized pause = false
is_set_initialized continue = false
is_set_initialized set_initialized = true

-- The state after the listeners that a step of the synchronizer called.
unfoldable pub state_after : List (Call Action) → State → State
state_after [] state = state
state_after (action_called action ∷ calls) state = state_after calls state
state_after (started actions ∷ calls) state = state_after calls state
state_after (completed actions ∷ calls) state =
    state_after calls (if any is_set_initialized actions then initialized else state)

-- `lifeCycle(() => action(this.synchronizer.onStart(this.pause).onComplete(this.continue)).start())`
unfoldable pub render : Context → Context × List (Call Action)
unfolding register start state_after add_on_start add_on_complete
render c =
    let c' =
      register (record c {
        synchronizer = add_on_complete continue (add_on_start pause c.synchronizer);
      }) in
    let s = start c'.synchronizer in
    (record c' { synchronizer = s.0; state = state_after s.1 c'.state }, s.1)

-- A load is answered.
unfoldable pub answer : Context → Context × List (Call Action)
unfolding process state_after
answer c =
    let s = process c.synchronizer in
    (record c { synchronizer = s.0; state = state_after s.1 c.state }, s.1)

unfoldable pub answers : ℕ → Context → Context × List (Call Action)
answers zero c = (c, [])
answers (suc n) c =
    let first = answer c in let rest = answers n first.0 in (rest.0, first.1 ++ rest.1)

-- `draw`: the widget of the context, or the loader.
unfoldable pub shows_widget : Context → Bool
shows_widget c = elim c.state [ created ↦ false | loading ↦ false | initialized ↦ true ]

-- `platformContexts`, with the function that registers a new context and those that reload.
unfoldable pub platform_context : String → List (String × Context) → List (String × Context)
unfolding set
platform_context name contexts = set name new_context contexts

unfoldable pub reload_contexts : List (String × Context) → List (String × Context)
unfolding reload
reload_contexts = map (λ entry. (entry.0, reload entry.1))

unfoldable pub reload_context : String → List (String × Context) → List (String × Context)
unfolding reload get set
reload_context name contexts = elim (get name contexts) [
  | none ↦ contexts
  | some context ↦ set name (reload context) contexts
]
