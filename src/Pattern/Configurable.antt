-- ===== src/Pattern/Configurable.antt =====
-- framework/pattern/Configurable.ts and framework/pattern/Trigger.ts: the notifications by which a
-- property's change renders its widget, and their pause. The listeners of a trigger are effects:
-- what the operations call is their output.
use art_platform.Common.{
  ℕ, zero, suc, ◌≡◌, refl, Bool, true, false, ◌||◌, Option, none, some, List, [], ◌∷◌, ◌++◌,
  if◌then◌else◌, arith, replicate, append-nil,
}

-- A trigger with its two listeners; `none` is `doNothing`.
pub record Trigger {ℓ} (L : Type ℓ) : Type ℓ where
  pub notify_listener : Option L
  pub dispose_listener : Option L

-- The fields of `Configurable` that the notifications read, and whether the widget's state is
-- `UNMOUNTED`.
pub record Configurable {ℓ} (L : Type ℓ) : Type ℓ where
  pub trigger : Option (Trigger L)
  pub unmounted : Bool
  pub render_paused : Bool

pub data Operation {ℓ} (L : Type ℓ) : Type ℓ where
  bind_trigger : Trigger L → Operation L
  dispose_trigger notify_trigger pause_render continue_render : Operation L

module _ {ℓ} {L : Type ℓ} where
  abbrev listeners : Option L → List L
  listeners none = []
  listeners (some l) = l ∷ []

  -- `Trigger.notify` and `Trigger.dispose`: the listeners that they call.
  unfoldable pub notify : Trigger L → List L
  notify t = listeners t.notify_listener

  unfoldable pub dispose : Trigger L → Trigger L × List L
  dispose t =
      (record { notify_listener = none; dispose_listener = none }, listeners t.dispose_listener)

  unfoldable pub notify_from : Configurable L → List L
  unfolding notify
  notify_from c =
      if c.unmounted || c.render_paused
      then []
      else elim c.trigger [ none ↦ [] | some t ↦ notify t ]

  -- An operation: the new state and the listeners that it calls.
  unfoldable pub operate : Operation L → Configurable L → Configurable L × List L
  unfolding notify_from dispose
  operate (bind_trigger t) c = elim c.trigger [
    | some old ↦ (c, [])
    | none ↦ (record c { trigger = some t }, [])
  ]
  operate dispose_trigger c = elim c.trigger [
    | none ↦ (c, [])
    | some t ↦ (record c { trigger = none }, (dispose t).1)
  ]
  operate notify_trigger c = (c, notify_from c)
  operate pause_render c = (record c { render_paused = true }, [])
  operate continue_render c =
      if c.render_paused
      then (let c' = record c { render_paused = false } in (c', notify_from c'))
      else (c, [])

  unfoldable pub operate_all : List (Operation L) → Configurable L → Configurable L × List L
  unfolding operate
  operate_all [] c = (c, [])
  operate_all (o ∷ os) c =
      let first = operate o c in let rest = operate_all os first.0 in (rest.0, first.1 ++ rest.1)

  -- A pause, `n` notifications and the continuation.
  abbrev pub paused : ℕ → List (Operation L)
  paused n = pause_render ∷ (replicate n notify_trigger ++ continue_render ∷ [])

  notify_from-paused : (c : Configurable L) → c.render_paused ≡ true → notify_from c ≡ []
  unfolding notify_from
  notify_from-paused c h = ground (arith, h)

  notified_while_paused :
      (n : ℕ) (c : Configurable L)
      → c.render_paused ≡ true
      → operate_all (replicate n notify_trigger ++ continue_render ∷ []) c
        ≡ (record c { render_paused = false }, notify_from (record c { render_paused = false }))
  unfolding operate_all operate
  notified_while_paused zero c h =
      rw h (rw (append-nil (notify_from (record c { render_paused = false }))))
  notified_while_paused (suc n) c h = rw (notified_while_paused n c h) (rw (notify_from-paused c h))

  -- However many notifications come while rendering is paused, even none, the continuation makes
  -- exactly one in their place: none is lost where the widget is mounted and has its trigger.
  pub operate_all-paused :
      (n : ℕ) (c : Configurable L)
      → operate_all (paused n) c
        ≡ (record c { render_paused = false }, notify_from (record c { render_paused = false }))
  unfolding operate_all operate
  operate_all-paused n c = notified_while_paused n (record c { render_paused = true }) refl
