-- ===== src/Card/Modules/Dialogs.antt =====
-- What becomes of the clicks on the button of the dialog for updates.
use art_platform.Common.{ℕ, ◌+◌, ◌≤◌, ◌≡◌, Bool, true, false, List, filter, length, if◌then◌else◌}
use art_platform.Card.Modules.Defs.{
  OnComplete, spawn_updating, Card, Call, updating_spawned, updating_opened, updating_closed,
  completion_lost, Event, updating_clicked,
}

abbrev pub count {ℓ} : {A : Type ℓ} → (A → Bool) → List A → ℕ
count p xs = length (filter p xs)

-- Of the loads, the calls and the events, those about the dialog for updates.
abbrev pub waits : OnComplete → Bool
waits spawn_updating = true
waits _ = false

abbrev pub spawns : Call → Bool
spawns updating_spawned = true
spawns _ = false

abbrev pub opens : Call → Bool
opens updating_opened = true
opens _ = false

abbrev pub closes : Call → Bool
closes updating_closed = true
closes _ = false

abbrev pub loses : Call → Bool
loses (completion_lost spawn_updating) = true
loses _ = false

abbrev pub clicks : Event → Bool
clicks updating_clicked = true
clicks _ = false

abbrev pub open_now : Card → ℕ
open_now c = if c.updating_dialog then 1 else 0

-- What an event, or events, have done to a card with what they called.
record IsAccounted (clicked : ℕ) (before after : Card) (calls : List Call) : Type 0 where
  accounted :
      clicked + count waits before.loads
      ≡ count spawns calls + count loses calls + count waits after.loads
  balanced : open_now before + count opens calls ≡ count closes calls + open_now after
  bounded : count opens calls ≤ count spawns calls
