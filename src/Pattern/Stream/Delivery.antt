-- ===== src/Pattern/Stream/Delivery.antt =====
-- Whom an event reaches.
use mathlib.Core.List.Memᴰ
use mathlib.Core.List.{Memᴰ}
use art_platform.Common.{
  ℕ, zero, suc, ◌≡◌, refl, sym, Option, none, some, List, [], ◌∷◌, ◌++◌, append-nil, arith, nat_eq,
  All, get_elem?,
}
use art_platform.Pattern.Stream.Defs.{
  EventType, added, updated, deleted, other, Stream, notify_all, single_subscribers, produce_event,
}
use art_platform.Pattern.Stream.Tokens.{
  Channel, on_add, on_delete, on_update_many, on_update_single, channel, subscribe, Command, run,
  Spares, Holds, subscribe-Holds, run-Holds, single_of_no_key,
}

module _ {κ} {T : Type κ} (id_of : T → ℕ) where
  -- The channels whose subscribers an event is for, in the order of delivery.
  abbrev pub audience : EventType → T → List Channel
  audience added x = on_add ∷ []
  audience updated x = on_update_many ∷ on_update_single (id_of x) ∷ []
  audience deleted x = on_delete ∷ []
  audience (other t) x = []

module _ {ℓ κ} {H : Type ℓ} {T : Type κ} (id_of : T → ℕ) where
  abbrev pub notify_channels : List Channel → T → Stream H → List (H × T)
  notify_channels [] x s = []
  notify_channels (c ∷ cs) x s = notify_all (channel c s) x ++ notify_channels cs x s

  -- An event calls the subscribers of the channels it is for, in order, and no others.
  pub produce_event_lem :
      (t : EventType) (x : T) (s : Stream H)
      → produce_event id_of t x s ≡ notify_channels (audience id_of t x) x s
  unfolding produce_event channel
  produce_event_lem added x s = sym (append-nil _)
  produce_event_lem updated x s = ground (
    arith,
    single_of_no_key (id_of x) s.update_single_subscribers,
    append-nil (notify_all s.update_many_subscribers x),
    append-nil (notify_all (single_subscribers (id_of x) s.update_single_subscribers) x),
  )
  produce_event_lem deleted x s = sym (append-nil _)
  produce_event_lem (other t) x s = refl

  mem-notify_all :
      (hs : List (Option H)) (i : ℕ) (h : H) (x : T)
      → get_elem? hs i ≡ some (some h)
      → Memᴰ (h, x) (notify_all hs x)
  mem-notify_all [] i h x e = absurd (cc)
  mem-notify_all (none ∷ hs) zero h x e = absurd (cc)
  mem-notify_all (some g ∷ hs) zero h x e = Memᴰ.head (ground arith)
  mem-notify_all (none ∷ hs) (suc i) h x e = mem-notify_all hs i h x e
  mem-notify_all (some g ∷ hs) (suc i) h x e = Memᴰ.tail (mem-notify_all hs i h x e)

  mem-notify_channels :
      (cs : List Channel) (c : Channel) (i : ℕ) (h : H) (x : T) (s : Stream H)
      → Memᴰ c cs
      → Holds c i h s
      → Memᴰ (h, x) (notify_channels cs x s)
  mem-notify_channels [] c i h x s m hold = elim m [ ]
  mem-notify_channels (d ∷ cs) c i h x s (Memᴰ.head same) hold =
      Memᴰ.append_left (notify_channels cs x s)
        (mem-notify_all (channel d s) i h x (rw (← same) hold))
  mem-notify_channels (d ∷ cs) c i h x s (Memᴰ.tail later) hold =
      Memᴰ.append_right (notify_all (channel d s) x) (mem-notify_channels cs c i h x s later hold)

  -- A handler that subscribed to a channel is called with every event for the channel, whatever
  -- is subscribed and unsubscribed in between, unless its own subscription is taken back.
  pub produce_event-mem :
      (c : Channel) (h : H) (s : Stream H) (cs : List (Command H)) (t : EventType) (x : T)
      → All (Spares c (subscribe c h s).1) cs
      → Memᴰ c (audience id_of t x)
      → Memᴰ (h, x) (produce_event id_of t x (run cs (subscribe c h s).0))
  produce_event-mem c h s cs t x spared for_c =
      rw (produce_event_lem t x (run cs (subscribe c h s).0)) (
        mem-notify_channels (audience id_of t x) c (subscribe c h s).1 h x
          (run cs (subscribe c h s).0) for_c
          (run-Holds cs c (subscribe c h s).1 h (subscribe c h s).0 spared (subscribe-Holds c h s)))
