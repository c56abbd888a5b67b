-- ===== src/Pattern/Property/Defs.antt =====
-- The class `Property` and its methods.
use art_platform.Common.{
  Bool, false, not, Option, none, some, List, [], ◌∷◌, ◌++◌, map, if◌then◌else◌, DeepEqual, ◌==◌,
  any,
}

pub record Property {ℓ κ} (T : Type ℓ) (H : Type κ) : Type (ℓ ⊔ κ) where
  pub before_update : List (Option T → Bool)
  pub after_update : List H
  pub clear_consumers : List H
  pub previous : Option T
  pub value : Option T
  pub pending : Option T

module _ {ℓ κ} {T : Type ℓ} {H : Type κ} where
  unfoldable pub property : Option T → Property T H
  property v = record {
    before_update = [];
    after_update = [];
    clear_consumers = [];
    previous = none;
    value = v;
    pending = none;
  }

  -- `this.#beforeUpdateConsumers.some(action => !action(value))`
  abbrev pub refused : Option T → Property T H → Bool
  refused v p = any (λ guard. not (guard v)) p.before_update

  abbrev pub call_all : List H → Option T → List (H × Option T)
  call_all hs v = map (λ h. (h, v)) hs

  unfoldable pub prevent : (Option T → Bool) → Property T H → Property T H
  prevent guard p = record p { before_update = p.before_update ++ guard ∷ [] }

  unfoldable pub consume : H → Property T H → Property T H × List (H × Option T)
  consume h p = (
    record p { after_update = p.after_update ++ h ∷ [] },
    elim p.pending [ some v ↦ (h, some v) ∷ [] | none ↦ [] ],
  )

  unfoldable pub cleared : H → Property T H → Property T H
  cleared h p = record p { clear_consumers = p.clear_consumers ++ h ∷ [] }

  -- The consumers of `cleared` are called with nothing: the result names them.
  unfoldable pub clear : Property T H → Property T H × List H
  clear p = (record p { previous = p.value; value = none; pending = none }, p.clear_consumers)

-- The test `equal(this.#value, value)`, where the left side is not `undefined`.
abbrev pub equals_value {ℓ} : {T : Type ℓ} ⦃e : DeepEqual T⦄ → T → Option T → Bool
equals_value old none = false
equals_value old (some v) = old == v

module _ {ℓ κ} {T : Type ℓ} {H : Type κ} ⦃e : DeepEqual T⦄ where
  -- The setter of `value`.
  unfoldable pub set_value : Option T → Property T H → Property T H × List (H × Option T)
  set_value v p = elim p.value [
    | none ↦
        if refused v p
        then (p, [])
        else (record p { previous = none; value = v; pending = v }, call_all p.after_update v)
    | some old ↦
        if equals_value old v
        then (record p { value = v; pending = v }, [])
        else (if refused v p then (p, []) else (
          record p { previous = some old; value = v; pending = v },
          call_all p.after_update v,
        ))
  ]

  -- Assignments, one after the other.
  unfoldable pub set_values : List (Option T) → Property T H → Property T H × List (H × Option T)
  set_values [] p = (p, [])
  set_values (v ∷ vs) p =
      let (p', calls) = set_value v p in
      let (p'', later) = set_values vs p' in (p'', calls ++ later)
