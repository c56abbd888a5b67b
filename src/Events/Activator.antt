-- ===== src/Events/Activator.antt =====
-- `#produceAssemblyEvent`, `#produceLoadTestEvent` and `#produceModuleEvent`, which are the same but for
-- their streams, and `#produceProjectEvent`. An event waits for the answer of the API of projects;
-- the answers come in any order.
use art_platform.Common.{
  ℕ, Bool, true, false, ◌||◌, Option, none, some, String, List, [], ◌∷◌, ◌++◌, get_elem?, remove_at,
  any, ◌==◌, nat_eq, if◌then◌else◌,
}
use art_platform.Pattern.Stream.{EventType, added, updated, deleted, other}

-- The events that wait for their project, and the widget's state.
pub record Activator {ℓ} (T : Type ℓ) : Type ℓ where
  pub waiting : List (EventType × T)
  pub unmounted : Bool

-- An event that a stream is given: its data with `projectName`, which a deletion has not.
pub record Produced {ℓ} (T : Type ℓ) : Type ℓ where
  pub type : EventType
  pub value : T
  pub project_name : Option String

module _ {ℓ} {T : Type ℓ} where
  abbrev pub new_activator : Activator T
  new_activator = record { waiting = []; unmounted = false }

  -- `#produce...Event`
  unfoldable pub produce : EventType → T → Activator T → Activator T × List (Produced T)
  produce deleted x a = (a, record { type = deleted; value = x; project_name = none } ∷ [])
  produce added x a = (record a { waiting = a.waiting ++ (added, x) ∷ [] }, [])
  produce updated x a = (record a { waiting = a.waiting ++ (updated, x) ∷ [] }, [])
  produce (other t) x a = (record a { waiting = a.waiting ++ (other t, x) ∷ [] }, [])

  -- `event => this.state != WidgetState.UNMOUNTED && this.#produce...Event(event)`
  unfoldable pub receive : EventType → T → Activator T → Activator T × List (Produced T)
  unfolding produce
  receive t x a = if a.unmounted then (a, []) else produce t x a

  -- The project of a waiting event is answered, with its name.
  unfoldable pub answer : ℕ → String → Activator T → Activator T × List (Produced T)
  answer i name a = elim (get_elem? a.waiting i) [
    | none ↦ (a, [])
    | some (t, x) ↦ (
      record a { waiting = remove_at i a.waiting },
      record { type = t; value = x; project_name = some name } ∷ [],
    )
  ]

-- What comes to the activator.
pub data Event {ℓ} (T : Type ℓ) : Type ℓ where
  received : EventType → T → Event T
  answered : ℕ → String → Event T
  unmounts : Event T

module _ {ℓ} {T : Type ℓ} where
  unfoldable pub step : Event T → Activator T → Activator T × List (Produced T)
  unfolding receive answer
  step (received t x) a = receive t x a
  step (answered i name) a = answer i name a
  step unmounts a = (record a { unmounted = true }, [])

  unfoldable pub run : List (Event T) → Activator T → Activator T × List (Produced T)
  run [] a = (a, [])
  run (event ∷ events) a =
      let first = step event a in let rest = run events first.0 in (rest.0, first.1 ++ rest.1)

-- `#produceProjectEvent`, when the user is answered: whether the event goes to the stream of projects.
unfoldable pub sees_project : Bool → List ℕ → ℕ → Bool
sees_project admin available_projects id = admin || any (λ p. p == id) available_projects
