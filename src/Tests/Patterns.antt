-- ===== src/Tests/Patterns.antt =====
-- The building blocks with texts or numbers as handlers, actions, values and widgets.
use mathlib.Core.List.{Memᴰ}
use art_platform.Common.{
  ℕ, ◌≤◌, ℕ, ◌≡◌, refl, true, false, Option, none, some, String, List, [], ◌∷◌, ◌++◌, map, arith,
  nat_eq, bool_eq, string_eq,
}
use art_platform.Pattern.Stream.{Stream, added, produce_event, new_stream}
use art_platform.Pattern.Stream.Tokens.{on_add, channel, subscribe, run, Holds}
use art_platform.Pattern.Stream.Delivery.{produce_event-mem}
use art_platform.Pattern.Synchronizer as Synchronizer
use art_platform.Pattern.Synchronizer.{Synchronizer, Call, action_called, started, completed}
use art_platform.Pattern.Synchronizer.Plain.{run_plain}
use art_platform.Pattern.Synchronizer.Managed.{run_managed}
use art_platform.Pattern.Property.{Property, property}
use art_platform.Pattern.Conditional.{Conditional, Optional}
use art_platform.Pattern.Conditional.Drawing.{Reading}
use art_platform.Pattern.Conditional.Spawning.{IsWired}
use art_platform.Pattern.Configurable.{Configurable}
use art_platform.Pattern.Hooks.{
  hook_container, hook_value, hook_values, evaluate, read, read-evaluate,
}

-- Two handlers listen to additions.
abbrev stream : Stream String
stream = record new_stream { add_subscribers = some "first" ∷ some "second" ∷ [] }

holds : Holds on_add 1 "second" stream
unfolding channel
holds = refl

produce_event-mem_example :
    Memᴰ
      ("third", 5)
      (produce_event (λ (x : ℕ). x) added 5 (run [] (subscribe on_add "third" stream).0))
produce_event-mem_example =
    produce_event-mem (λ x. x) on_add "third" stream [] added 5 tt (Memᴰ.head refl)

abbrev plain : Synchronizer String
plain = record {
  actions = "a" ∷ "b" ∷ "c" ∷ [];
  managed = false;
  counter = 0;
  done = false;
  on_start = [];
  on_complete = "end" ∷ [];
}

run_plain_example :
    ((k : ℕ)
      → k ≤ 2
      → Synchronizer.run k plain
        ≡ (record plain { counter = k }, started [] ∷ map action_called ("a" ∷ "b" ∷ "c" ∷ [])))
    × (Synchronizer.run 3 plain ≡ (
      record plain { counter = 3; done = true },
      (started [] ∷ map action_called ("a" ∷ "b" ∷ "c" ∷ [])) ++ completed ("end" ∷ []) ∷ [],
    ))
run_plain_example = run_plain plain 2 refl refl refl

run_managed_example : Synchronizer.run 2 (record plain { managed = true }) ≡ (
  record plain { managed = true; actions = "c" ∷ []; counter = 2; done = true },
  started [] ∷ action_called "a" ∷ (map action_called ("b" ∷ []) ++ completed ("end" ∷ []) ∷ []),
)
run_managed_example =
    run_managed (record plain { managed = true }) "a" ("b" ∷ []) ("c" ∷ []) refl refl refl
      (omega arith) (omega arith)

-- A property with a guard and a consumer.
abbrev size : Property ℕ String
size = record (property (some 1)) { after_update = "listener" ∷ [] }

abbrev conditional : Conditional String String ℕ String
conditional = record {
  stub = "nothing";
  stub_factory = none;
  widget_factory = λ env current. env;
  widget = some "old";
  persisted = true;
  cached = false;
  last_cached_value = none;
}

abbrev readings : List (Reading String ℕ)
readings =
    record { env = "x"; holds = true; now = some 1 }
    ∷ record { env = "y"; holds = false; now = some 1 }
    ∷ []

abbrev remembering : Conditional String String ℕ String
remembering = record conditional { persisted = false; cached = true; last_cached_value = some 1 }

abbrev widget_of : Option String → String
widget_of none = "empty"
widget_of (some p) = p

abbrev dialog : Optional String String String
dialog = record {
  spawned = some true;
  spawn_properties = some "first";
  factory = widget_of;
  conditional = record {
    stub = "nothing";
    stub_factory = none;
    widget_factory = λ p current. widget_of p;
    widget = some "first";
    persisted = false;
    cached = true;
    last_cached_value = some true;
  };
}

dialog-IsWired : IsWired widget_of dialog
dialog-IsWired = record { cached = refl; fleeting = refl; makes = λ p current. refl }

abbrev configurable : Configurable String
configurable = record {
  trigger = some (record { notify_listener = some "render"; dispose_listener = none });
  unmounted = false;
  render_paused = false;
}

read-evaluate_example :
    read
      (λ (n : ℕ). true)
      (hook_value {F = String} {V = ℕ} "f" hook_container).1
      (evaluate
        (λ f. 1)
        (hook_values ("g" ∷ []) (hook_value {F = String} {V = ℕ} "f" hook_container).0))
    ≡ some 1
read-evaluate_example = read-evaluate (λ f. 1) (λ n. true) "f" ("g" ∷ []) hook_container
