-- ===== src/Pattern/Conditional/Defs.antt =====
-- The classes `Conditional` and `Optional` and their methods.
use mathlib.Core.Option
use art_platform.Common.{
  Bool, true, false, not, Option, none, some, if◌then◌else◌, DeepEqual, ◌==◌, bool_eq,
}

-- What `else` is given: a widget, or a factory of one.
pub data Stub {ℓ} (S : Type ℓ) : Type ℓ where
  widget_stub : S → Stub S
  factory_stub : S → Stub S

-- What a draw shows.
pub data Shown {ℓ} (W S : Type ℓ) : Type ℓ where
  shown : W → Shown W S
  stubbed : S → Shown W S

pub record Conditional {ℓ} (E W C S : Type ℓ) : Type ℓ where
  pub stub : S
  pub stub_factory : Option S
  pub widget_factory : E → Option W → W
  pub widget : Option W
  pub persisted : Bool
  pub cached : Bool
  pub last_cached_value : Option C

module _ {ℓ} {E W C S : Type ℓ} where
  unfoldable pub set_else : Stub S → Conditional E W C S → Conditional E W C S
  set_else (widget_stub s) c = record c { stub = s }
  set_else (factory_stub s) c = record c { stub_factory = some s }

  unfoldable pub set_widget : (E → W) → Conditional E W C S → Conditional E W C S
  set_widget f c = record c { widget_factory = λ env current. f env }

  -- The factory of a cache is given the current widget.
  unfoldable pub cache : (E → Option W → W) → Conditional E W C S → Conditional E W C S
  cache f c = record c { widget_factory = f; cached = true }

  unfoldable pub persist : (E → W) → Conditional E W C S → Conditional E W C S
  persist f c = record c { widget_factory = λ env current. f env; persisted = true }

  unfoldable pub apply : (W → W) → Conditional E W C S → Conditional E W C S
  apply action c =
      let factory = c.widget_factory in
      record c {
        widget_factory = λ env current. action (factory env current);
        widget = Option.map action c.widget;
      }

  unfoldable pub map_widget {κ} : {V : Type κ} → (W → V) → Conditional E W C S → Option V
  map_widget action c = Option.map action c.widget

  unfoldable pub get : Conditional E W C S → Option W
  unfolding map_widget
  get c = map_widget (λ w. w) c

  unfoldable pub create_stub : Conditional E W C S → S
  create_stub c = elim c.stub_factory [ some s ↦ s | none ↦ c.stub ]

  unfoldable pub create_widget : E → Conditional E W C S → Conditional E W C S × Shown W S
  create_widget env c =
      let w = c.widget_factory env c.widget in (record c { widget = some w }, shown w)

  unfoldable pub get_or_create_widget : E → Conditional E W C S → Conditional E W C S × Shown W S
  unfolding create_widget
  get_or_create_widget env c = elim c.widget [ some w ↦ (c, shown w) | none ↦ create_widget env c ]

  module _ ⦃e : DeepEqual C⦄ where
    -- `draw`, with what the predicate (`holds`) and the cache function (`now`) say.
    unfoldable pub draw :
        E → Bool → Option C → Conditional E W C S → Conditional E W C S × Shown W S
    unfolding create_stub get_or_create_widget
    draw env false now c =
        (if c.cached then record c { last_cached_value = now } else c, stubbed (create_stub c))
    draw env true now c =
        if c.persisted
        then get_or_create_widget env c
        else (if not c.cached then create_widget env c else elim c.last_cached_value [
          | none ↦ get_or_create_widget env (record c { last_cached_value = now })
          | some last ↦
              if (elim now [ some value ↦ last == value | none ↦ false ])
              then get_or_create_widget env (record c { last_cached_value = now })
              else create_widget env (record c { last_cached_value = now })
        ])

-- `Optional`: `P` are the properties that `spawn` is given; `spawned` may be `undefined`.
pub record Optional (P W S : Type 0) : Type 0 where
  pub spawned : Option Bool
  pub spawn_properties : Option P
  pub factory : Option P → W
  pub conditional : Conditional (Option P) W Bool S

-- The truth of `spawned`.
abbrev pub is_spawned : Option Bool → Bool
is_spawned none = false
is_spawned (some b) = b

module _ {P W S : Type 0} where
  -- The constructor. `wire` hands `destroy` to the widget's `onClose`, if it has one; `empty` is
  -- the empty component, the stub of a new conditional and its first widget.
  unfoldable pub optional : (Option P → W) → Option Bool → (W → W) → W → S → Optional P W S
  unfolding cache apply
  optional factory spawned wire empty stub = record {
    spawned = spawned;
    spawn_properties = none;
    factory = factory;
    conditional = apply wire (
        cache (λ env current. factory env)
          (record {
            stub = stub;
            stub_factory = none;
            widget_factory = λ env current. empty;
            widget = none;
            persisted = false;
            cached = false;
            last_cached_value = none;
          }));
  }

  unfoldable pub spawn : Option P → Optional P W S → Optional P W S
  spawn p o = record o { spawn_properties = p; spawned = some true }

  unfoldable pub destroy : Optional P W S → Optional P W S
  destroy o = record o { spawned = some false }

  unfoldable pub persist_optional : Option P → (W → W) → Optional P W S → Optional P W S
  unfolding persist apply
  persist_optional p wire o = record o {
    conditional = apply wire (persist (λ env. o.factory p) o.conditional);
  }

  unfoldable pub draw_optional : Optional P W S → Optional P W S × Shown W S
  unfolding draw
  draw_optional o =
      let (c, result) = draw o.spawn_properties (is_spawned o.spawned) o.spawned o.conditional in
      (record o { conditional = c }, result)
