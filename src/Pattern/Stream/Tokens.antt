-- ===== src/Pattern/Stream/Tokens.antt =====
-- What an index that `subscribe` returned stands for, whatever happens to the stream later.
use mathlib.Core.Path.{ap₂}
use native.Mathlib.Decide.{ℕ_discrete}
use art_platform.Common.{
  ℕ, ◌-◌, ◌≡◌, ◌≢◌, ◌<◌, inl, inr, refl, false, Option, none, some, List, [], ◌∷◌, ◌++◌, arith,
  if◌then◌else◌, ◌==◌, nat_eq, All, length, length-append, assign, get_elem?, get_elem?-append_left,
  get_elem?-append_end, get_elem?-lt, get_elem?-assign_ne, get_elem?-assign_self, Bool-cases,
}
use art_platform.Extensions.Maps.{has_key, set, get-set, get_of_no_key}
use art_platform.Pattern.Stream.Defs.{
  Stream, single_subscribers, subscribe_on_add, subscribe_on_delete, subscribe_on_update_many,
  subscribe_on_update_single, unsubscribe_from_add, unsubscribe_from_delete,
  unsubscribe_from_update_many, unsubscribe_from_update_single,
}

-- What a subscription listens to.
pub data Channel : Type 0 where
  on_add on_delete on_update_many : Channel
  on_update_single : ℕ → Channel

pub Channel-discrete : Discrete Channel
Channel-discrete = hlevel ℕ_discrete

-- What is done to a stream from outside.
pub data Command {ℓ} (H : Type ℓ) : Type ℓ where
  subscribes : Channel → H → Command H
  unsubscribes : Channel → ℕ → Command H

module _ {ℓ} {H : Type ℓ} where
  unfoldable pub channel : Channel → Stream H → List (Option H)
  channel on_add s = s.add_subscribers
  channel on_delete s = s.delete_subscribers
  channel on_update_many s = s.update_many_subscribers
  channel (on_update_single id) s = single_subscribers id s.update_single_subscribers

  unfoldable pub subscribe : Channel → H → Stream H → Stream H × ℕ
  subscribe on_add h s = subscribe_on_add h s
  subscribe on_delete h s = subscribe_on_delete h s
  subscribe on_update_many h s = subscribe_on_update_many h s
  subscribe (on_update_single id) h s = subscribe_on_update_single id h s

  unfoldable pub unsubscribe : Channel → ℕ → Stream H → Stream H
  unsubscribe on_add i s = unsubscribe_from_add i s
  unsubscribe on_delete i s = unsubscribe_from_delete i s
  unsubscribe on_update_many i s = unsubscribe_from_update_many i s
  unsubscribe (on_update_single id) i s = unsubscribe_from_update_single id i s

  single-set :
      (id j : ℕ) (hs : List (Option H)) (m : List (ℕ × List (Option H)))
      → single_subscribers j (set id hs m) ≡ (if id == j then hs else single_subscribers j m)
  unfolding single_subscribers
  single-set id j hs m = ground (arith, get-set id j hs m)

  pub single_of_no_key :
      (id : ℕ) (m : List (ℕ × List (Option H)))
      → has_key id m ≡ false
      → single_subscribers id m ≡ []
  unfolding single_subscribers
  single_of_no_key id m h = ground (arith, get_of_no_key id m)

  length-pushed : (hs : List (Option H)) (h : H) → length (hs ++ some h ∷ []) - 1 ≡ length hs
  length-pushed hs h = omega (arith, length-append hs (some h ∷ []))

  -- Subscribing puts the handler at the end of its channel, and returns its index there.
  pub subscribe_lem :
      (c : Channel) (h : H) (s : Stream H)
      → let (s', i) = subscribe c h s in
        (channel c s' ≡ channel c s ++ some h ∷ []) × (i ≡ length (channel c s))
  unfolding subscribe channel subscribe_on_add subscribe_on_delete subscribe_on_update_many
      subscribe_on_update_single
  subscribe_lem on_add h s = (refl, length-pushed s.add_subscribers h)
  subscribe_lem on_delete h s = (refl, length-pushed s.delete_subscribers h)
  subscribe_lem on_update_many h s = (refl, length-pushed s.update_many_subscribers h)
  subscribe_lem (on_update_single id) h s = ground (
    arith,
    single_of_no_key id s.update_single_subscribers,
    length-pushed (single_subscribers id s.update_single_subscribers) h,
    single-set id id (single_subscribers id s.update_single_subscribers ++ some h ∷ [])
        s.update_single_subscribers,
    single-set id id (some h ∷ []) s.update_single_subscribers,
  )

  -- Subscribing to one channel leaves the others as they are.
  channel-subscribe_ne :
      (c d : Channel) (h : H) (s : Stream H) → c ≢ d → channel d (subscribe c h s).0 ≡ channel d s
  unfolding subscribe channel subscribe_on_add subscribe_on_delete subscribe_on_update_many
      subscribe_on_update_single
  channel-subscribe_ne (on_update_single id) (on_update_single j) h s ne = ground (
    arith,
    single-set id j (single_subscribers id s.update_single_subscribers ++ some h ∷ [])
        s.update_single_subscribers,
    single-set id j (some h ∷ []) s.update_single_subscribers,
  )
  channel-subscribe_ne on_add on_add h s ne = absurd (ne refl)
  channel-subscribe_ne on_delete on_delete h s ne = absurd (ne refl)
  channel-subscribe_ne on_update_many on_update_many h s ne = absurd (ne refl)
  channel-subscribe_ne _ _ h s ne = ground arith

  -- Unsubscribing from one channel leaves the others as they are.
  channel-unsubscribe_ne :
      (c d : Channel) (i : ℕ) (s : Stream H) → c ≢ d → channel d (unsubscribe c i s) ≡ channel d s
  unfolding unsubscribe channel unsubscribe_from_add unsubscribe_from_delete
      unsubscribe_from_update_many unsubscribe_from_update_single
  channel-unsubscribe_ne (on_update_single id) (on_update_single j) i s ne = ground (
    arith,
    single-set id j (assign none (single_subscribers id s.update_single_subscribers) i none)
        s.update_single_subscribers,
  )
  channel-unsubscribe_ne on_add on_add i s ne = absurd (ne refl)
  channel-unsubscribe_ne on_delete on_delete i s ne = absurd (ne refl)
  channel-unsubscribe_ne on_update_many on_update_many i s ne = absurd (ne refl)
  channel-unsubscribe_ne _ _ i s ne = ground arith

  -- In its own channel it overwrites the slot, where there is a channel.
  channel-unsubscribe_self :
      (c : Channel) (i : ℕ) (s : Stream H)
      → 0 < length (channel c s)
      → channel c (unsubscribe c i s) ≡ assign none (channel c s) i none
  unfolding unsubscribe channel unsubscribe_from_add unsubscribe_from_delete
      unsubscribe_from_update_many unsubscribe_from_update_single
  channel-unsubscribe_self on_add i s lt = refl
  channel-unsubscribe_self on_delete i s lt = refl
  channel-unsubscribe_self on_update_many i s lt = refl
  channel-unsubscribe_self (on_update_single id) i s lt = elim (Bool-cases (has_key id m)) [
    | inl there ↦
        rw there (ground (arith, single-set id id (assign none (single_subscribers id m) i none) m))
    | inr gone ↦ absurd (ground (arith, single_of_no_key id m gone))
  ]
    where
      open s use {update_single_subscribers as m}

  unfoldable pub step : Command H → Stream H → Stream H
  step (subscribes c h) s = (subscribe c h s).0
  step (unsubscribes c i) s = unsubscribe c i s

  unfoldable pub run : List (Command H) → Stream H → Stream H
  run [] s = s
  run (c ∷ cs) s = run cs (step c s)

  -- The command is not the one that takes the subscription back.
  abbrev pub Spares : Channel → ℕ → Command H → Type ℓ
  Spares c i k = k ≢ unsubscribes c i

  -- The handler stands at the index of the channel.
  abbrev pub Holds : Channel → ℕ → H → Stream H → Type ℓ
  Holds c i h s = get_elem? (channel c s) i ≡ some (some h)

  step-Holds :
      (k : Command H) (c : Channel) (i : ℕ) (h : H) (s : Stream H)
      → Spares c i k
      → Holds c i h s
      → Holds c i h (step k s)
  unfolding step
  step-Holds (subscribes d g) c i h s sp hold = elim (Channel-discrete d c) [
    | no differ ↦ rw (channel-subscribe_ne d c g s differ) hold
    | yes same ↦
        rw
          (
            same,
            (subscribe_lem c g s).0,
            get_elem?-append_left (channel c s) (some g ∷ []) i (get_elem?-lt (channel c s) i hold),
          )
          hold
  ]
  step-Holds (unsubscribes d j) c i h s sp hold = elim (Channel-discrete d c) [
    | no differ ↦ rw (channel-unsubscribe_ne d c j s differ) hold
    | yes same ↦ elim (ℕ_discrete j i) [
      | yes at ↦ absurd (sp (ap₂ unsubscribes same at))
      | no apart ↦
          rw
            (
              same,
              channel-unsubscribe_self c j s (omega (arith, get_elem?-lt (channel c s) i hold)),
              get_elem?-assign_ne none (channel c s) j i none apart
                  (get_elem?-lt (channel c s) i hold),
            )
            hold
    ]
  ]

  -- A handler stays at the index that its subscription returned, and in its channel, through any
  -- commands among which that subscription is not taken back.
  pub run-Holds :
      (cs : List (Command H)) (c : Channel) (i : ℕ) (h : H) (s : Stream H)
      → All (Spares c i) cs
      → Holds c i h s
      → Holds c i h (run cs s)
  unfolding run
  run-Holds [] c i h s sp hold = hold
  run-Holds (k ∷ cs) c i h s sp hold =
      run-Holds cs c i h (step k s) sp.1 (step-Holds k c i h s sp.0 hold)

  -- The index that a subscription returns is one at which the handler stands.
  pub subscribe-Holds :
      (c : Channel) (h : H) (s : Stream H) → Holds c (subscribe c h s).1 h (subscribe c h s).0
  subscribe-Holds c h s =
      rw ((subscribe_lem c h s).0, (subscribe_lem c h s).1)
        (get_elem?-append_end (channel c s) (some h))

  -- After a subscription is taken back its slot is empty.
  pub unsubscribe_empties :
      (c : Channel) (i : ℕ) (h : H) (s : Stream H)
      → Holds c i h s
      → get_elem? (channel c (unsubscribe c i s)) i ≡ some none
  unsubscribe_empties c i h s hold =
      rw (channel-unsubscribe_self c i s (omega (arith, get_elem?-lt (channel c s) i hold)))
        (get_elem?-assign_self none (channel c s) i none)
