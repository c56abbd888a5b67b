-- ===== src/Pattern/Synchronizer/Defs.antt =====
-- The class `Synchronizer` and its methods.
use art_platform.Common.{
  Option, none, some, ℕ, zero, suc, ◌+◌, Bool, true, false, not, List, [], ◌∷◌, ◌++◌, map,
  if◌then◌else◌, nat_beq, leb, length,
}

pub record Synchronizer {ℓ} (A : Type ℓ) : Type ℓ where
  pub actions : List A
  pub managed : Bool
  pub counter : ℕ
  pub done : Bool
  pub on_start : List A
  pub on_complete : List A

-- What is called: an action, or the listeners of the start and of the completion, each with the
-- names in the order of their calls.
pub data Call {ℓ} (A : Type ℓ) : Type ℓ where
  action_called : A → Call A
  started : List A → Call A
  completed : List A → Call A

module _ {ℓ} {A : Type ℓ} where
  abbrev pub new_synchronizer : Synchronizer A
  new_synchronizer = record {
    actions = [];
    managed = false;
    counter = 0;
    done = false;
    on_start = [];
    on_complete = [];
  }

  unfoldable pub set_managed : Synchronizer A → Synchronizer A
  set_managed s = record s { managed = true }

  unfoldable pub add_action : A → Synchronizer A → Synchronizer A
  add_action a s = record s { actions = s.actions ++ a ∷ [] }

  -- `onStart` runs its action after those that are there, `onComplete` before them.
  unfoldable pub add_on_start : A → Synchronizer A → Synchronizer A
  add_on_start a s = record s { on_start = s.on_start ++ a ∷ [] }

  unfoldable pub add_on_complete : A → Synchronizer A → Synchronizer A
  add_on_complete a s = record s { on_complete = a ∷ s.on_complete }

  unfoldable pub reset : Synchronizer A → Synchronizer A
  reset s = record s { actions = []; counter = 0; done = false }

  -- `const action = this.#actions.shift(); if (action) action(this)`
  unfoldable pub shift_action : List A → Synchronizer A → Synchronizer A × List (Call A)
  shift_action [] s = (s, [])
  shift_action (a ∷ rest) s = (record s { actions = rest }, action_called a ∷ [])

  unfoldable pub start : Synchronizer A → Synchronizer A × List (Call A)
  unfolding shift_action
  start s =
      if nat_beq s.counter (length s.actions)
      then (s, completed s.on_complete ∷ [])
      else (if not s.managed
          then (s, started s.on_start ∷ map action_called s.actions)
          else (let (s', calls) = shift_action s.actions s in (s', started s.on_start ∷ calls)))

  unfoldable pub process : Synchronizer A → Synchronizer A × List (Call A)
  unfolding shift_action
  process s =
      let counted = record s { counter = s.counter + 1 } in
      if leb (length s.actions) (s.counter + 1)
      then (record counted { done = true }, completed s.on_complete ∷ [])
      else (if s.managed then shift_action s.actions counted else (counted, []))

  -- `execute`: the action is called, then the report is made.
  unfoldable pub execute : A → Synchronizer A → Synchronizer A × List (Call A)
  unfolding process
  execute action s = let (s', calls) = process s in (s', action_called action ∷ calls)

  -- `synchronize`; an absent action is `none`.
  unfoldable pub synchronize : Option A → Synchronizer A
  unfolding add_action
  synchronize none = new_synchronizer
  synchronize (some action) = add_action action new_synchronizer

  -- Reports, one after the other.
  unfoldable pub reports : ℕ → Synchronizer A → Synchronizer A × List (Call A)
  unfolding process
  reports zero s = (s, [])
  reports (suc n) s =
      let (s', calls) = process s in let (s'', later) = reports n s' in (s'', calls ++ later)

  -- A whole run: the start, and then `n` reports.
  unfoldable pub run : ℕ → Synchronizer A → Synchronizer A × List (Call A)
  unfolding start reports
  run n s = let (s', calls) = start s in let (s'', later) = reports n s' in (s'', calls ++ later)
