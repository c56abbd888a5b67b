-- ===== src/Pattern/Hooks.antt =====
-- framework/pattern/HookContainer.ts: factories of hooks are registered once, evaluated at each
-- rendering, and read by the index that registration gave. `T` is what the factories and hooks
-- are; the call of a factory and the truth of a hook are given.
use mathlib.Core.Option
use art_platform.Common.{
  ℕ, ◌≡◌, refl, sym, ap, ◌∙◌, Bool, true, false, not, Option, none, some, List, [], ◌∷◌, ◌++◌, map,
  append_assoc, append-nil, ◌-◌, if◌then◌else◌, arith, length, length-append, get_elem?,
  get_elem?-map,
}

pub record HookContainer {ℓ κ} (F : Type ℓ) (V : Type κ) : Type (ℓ ⊔ κ) where
  pub hook_factories : List F
  pub evaluated_hooks : List V
  pub evaluated : Bool

get_elem?-middle {ℓ} :
    {F : Type ℓ} (before : List F) (f : F) (after : List F)
    → get_elem? (before ++ f ∷ after) (length before) ≡ some f
get_elem?-middle [] f after = refl
get_elem?-middle (b ∷ before) f after = get_elem?-middle before f after

-- The test in the function that `hookValue` returns.
abbrev checked {ℓ} : {V : Type ℓ} → (V → Bool) → Option V → Option V
checked truthy none = none
checked truthy (some hook) = if not (truthy hook) then none else some hook

module _ {ℓ κ} {F : Type ℓ} {V : Type κ} where
  abbrev pub hook_container : HookContainer F V
  hook_container = record { hook_factories = []; evaluated_hooks = []; evaluated = false }

  -- `hookValue` and `hookFunction`: the container, and the index of what they return.
  unfoldable pub hook_value : F → HookContainer F V → HookContainer F V × ℕ
  hook_value factory c =
      let factories = c.hook_factories ++ factory ∷ [] in
      (record c { hook_factories = factories }, length factories - 1)

  unfoldable pub hook_values : List F → HookContainer F V → HookContainer F V
  unfolding hook_value
  hook_values [] c = c
  hook_values (f ∷ fs) c = hook_values fs (hook_value f c).0

  -- The loop of `evaluate`
  unfoldable pub evaluate_from : (F → V) → List V → List F → List V
  evaluate_from call hooks [] = hooks
  evaluate_from call hooks (f ∷ fs) = evaluate_from call (hooks ++ call f ∷ []) fs

  unfoldable pub evaluate : (F → V) → HookContainer F V → HookContainer F V
  unfolding evaluate_from
  evaluate call c = record c {
    evaluated_hooks = evaluate_from call [] c.hook_factories;
    evaluated = true;
  }

  -- The function that `hookValue` returns; `none` is the error.
  unfoldable pub read : (V → Bool) → ℕ → HookContainer F V → Option V
  read truthy index c = checked truthy (get_elem? c.evaluated_hooks index)

  evaluate_from-map :
      (call : F → V) (fs : List F) (hooks : List V)
      → evaluate_from call hooks fs ≡ hooks ++ map call fs
  unfolding evaluate_from
  evaluate_from-map call [] hooks = sym (append-nil hooks)
  evaluate_from-map call (f ∷ fs) hooks =
      evaluate_from-map call fs (hooks ++ call f ∷ [])
      ∙ append_assoc hooks (call f ∷ []) (map call fs)

  hook_values-factories :
      (fs : List F) (c : HookContainer F V)
      → (hook_values fs c).hook_factories ≡ c.hook_factories ++ fs
  unfolding hook_values
  hook_values-factories [] c = sym (append-nil c.hook_factories)
  hook_values-factories (f ∷ fs) c =
      hook_values-factories fs (hook_value f c).0 ∙ append_assoc c.hook_factories (f ∷ []) fs

  read_found :
      (truthy : V → Bool) (i : ℕ) (v : V) (c : HookContainer F V)
      → get_elem? c.evaluated_hooks i ≡ some v
      → read truthy i c ≡ (if truthy v then some v else none)
  unfolding read
  read_found truthy i v c h = ap (checked truthy) h ∙ step (truthy v)
    where
      step : (b : Bool) → (if not b then none else some v) ≡ (if b then some v else none)
      step true = refl
      step false = refl

  -- Whatever else is registered, after an evaluation the function that `hookValue` returned gives
  -- what its own factory made, where that is truthy, and is the error where it is not: a hook whose
  -- value is 0, false or an empty text cannot be read.
  pub read-evaluate :
      (call : F → V) (truthy : V → Bool) (f : F) (later : List F) (c : HookContainer F V)
      → let registered = hook_value f c in
        read truthy registered.1 (evaluate call (hook_values later registered.0))
        ≡ (if truthy (call f) then some (call f) else none)
  unfolding evaluate hook_value
  read-evaluate call truthy f later c =
      let index : length (c.hook_factories ++ f ∷ []) - 1 ≡ length c.hook_factories =
        omega (arith, length-append c.hook_factories (f ∷ [])) in
      let hooks : get_elem?
            (evaluate_from call [] (hook_values later (hook_value f c).0).hook_factories)
            (length c.hook_factories)
          ≡ some (call f) =
        ap (λ hs. get_elem? hs (length c.hook_factories))
          (evaluate_from-map call (hook_values later (hook_value f c).0).hook_factories []
            ∙ ap (map call) (
                hook_values-factories later (hook_value f c).0
                ∙ append_assoc c.hook_factories (f ∷ []) later))
        ∙ get_elem?-map call (c.hook_factories ++ f ∷ later) (length c.hook_factories)
        ∙ ap (Option.map call) (get_elem?-middle c.hook_factories f later) in
      rw index (
        read_found truthy (length c.hook_factories) (call f)
          (evaluate call (hook_values later (hook_value f c).0)) hooks)
