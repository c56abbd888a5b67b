-- ===== src/Pattern/Stream/Defs.antt =====
-- The class `Stream` and its methods.
use art_platform.Common.{
  ℕ, ◌-◌, Option, none, some, List, [], ◌∷◌, ◌++◌, String, if◌then◌else◌, length, assign, nat_eq,
}
use art_platform.Extensions.Maps.{get, has_key, set}

-- constants/EventTypes.ts; any other text is `other`.
pub data EventType : Type 0 where
  added updated deleted : EventType
  other : String → EventType

pub record Stream {ℓ} (H : Type ℓ) : Type ℓ where
  pub add_subscribers : List (Option H)
  pub update_single_subscribers : List (ℕ × List (Option H))
  pub update_many_subscribers : List (Option H)
  pub delete_subscribers : List (Option H)
  pub stop_action : Option H

-- The names that are called, with what they are called with.
abbrev pub notify_all {ℓ κ} : {H : Type ℓ} {T : Type κ} → List (Option H) → T → List (H × T)
notify_all [] x = []
notify_all (none ∷ hs) x = notify_all hs x
notify_all (some h ∷ hs) x = (h, x) ∷ notify_all hs x

module _ {ℓ} {H : Type ℓ} where
  abbrev pub new_stream : Stream H
  new_stream = record {
    add_subscribers = [];
    update_single_subscribers = [];
    update_many_subscribers = [];
    delete_subscribers = [];
    stop_action = none;
  }

  unfoldable pub start : H → Stream H → Stream H
  start stop s = record s { stop_action = some stop }

  -- The action that `stop` calls.
  unfoldable pub stop : Stream H → Option H
  stop s = s.stop_action

  unfoldable pub subscribe_on_add : H → Stream H → Stream H × ℕ
  subscribe_on_add h s =
      let pushed = s.add_subscribers ++ some h ∷ [] in
      (record s { add_subscribers = pushed }, length pushed - 1)

  unfoldable pub subscribe_on_delete : H → Stream H → Stream H × ℕ
  subscribe_on_delete h s =
      let pushed = s.delete_subscribers ++ some h ∷ [] in
      (record s { delete_subscribers = pushed }, length pushed - 1)

  unfoldable pub subscribe_on_update_many : H → Stream H → Stream H × ℕ
  subscribe_on_update_many h s =
      let pushed = s.update_many_subscribers ++ some h ∷ [] in
      (record s { update_many_subscribers = pushed }, length pushed - 1)

  -- The subscribers of one id, or none of them where the map has no entry.
  unfoldable pub single_subscribers : ℕ → List (ℕ × List (Option H)) → List (Option H)
  single_subscribers id m = elim (get id m) [ some hs ↦ hs | none ↦ [] ]

  unfoldable pub subscribe_on_update_single : ℕ → H → Stream H → Stream H × ℕ
  subscribe_on_update_single id h s =
      if has_key id s.update_single_subscribers
      then (let pushed = single_subscribers id s.update_single_subscribers ++ some h ∷ [] in
          (
            record s { update_single_subscribers = set id pushed s.update_single_subscribers },
            length pushed - 1,
          ))
      else (
        record s { update_single_subscribers = set id (some h ∷ []) s.update_single_subscribers },
        0,
      )

  unfoldable pub unsubscribe_from_add : ℕ → Stream H → Stream H
  unsubscribe_from_add i s = record s { add_subscribers = assign none s.add_subscribers i none }

  unfoldable pub unsubscribe_from_delete : ℕ → Stream H → Stream H
  unsubscribe_from_delete i s = record s {
    delete_subscribers = assign none s.delete_subscribers i none;
  }

  unfoldable pub unsubscribe_from_update_many : ℕ → Stream H → Stream H
  unsubscribe_from_update_many i s = record s {
    update_many_subscribers = assign none s.update_many_subscribers i none;
  }

  unfoldable pub unsubscribe_from_update_single : ℕ → ℕ → Stream H → Stream H
  unsubscribe_from_update_single id i s =
      if has_key id s.update_single_subscribers
      then record s {
        update_single_subscribers =
            set id (assign none (single_subscribers id s.update_single_subscribers) i none)
              s.update_single_subscribers;
      }
      else s

module _ {ℓ κ} {H : Type ℓ} {T : Type κ} (id_of : T → ℕ) where
  unfoldable pub produce_event : EventType → T → Stream H → List (H × T)
  produce_event added x s = notify_all s.add_subscribers x
  produce_event updated x s =
      if has_key (id_of x) s.update_single_subscribers
      then notify_all s.update_many_subscribers x
        ++ notify_all (single_subscribers (id_of x) s.update_single_subscribers) x
      else notify_all s.update_many_subscribers x
  produce_event deleted x s = notify_all s.delete_subscribers x
  produce_event (other t) x s = []
