-- ===== src/Events/Order.antt =====
-- What the activator makes of the events that it receives, and in which order.
use mathlib.Core.List.Perm
use mathlib.Core.List.{Perm, perm_append_singleton}
use art_platform.Common.{
  ◌≡◌, refl, sym, ap, Bool, true, false, none, List, [], ◌∷◌, ◌++◌, map, append_assoc, append-nil,
  get_elem?, remove_at-perm, arith, Bool-cases, Option-cases, inl, inr, if◌then◌else◌,
}
use art_platform.Pattern.Stream.{EventType, added, updated, deleted, other}
use art_platform.Events.Activator.{
  Activator, Produced, new_activator, produce, receive, answer, Event, received, answered, unmounts,
  step, run,
}

module _ {ℓ} {T : Type ℓ} where
  abbrev pub bare : List (Produced T) → List (EventType × T)
  bare = map (λ p. (p.type, p.value))

  -- The events that come before the widget is unmounted.
  abbrev pub accepted : Bool → List (Event T) → List (EventType × T)
  accepted unmounted [] = []
  accepted unmounted (received t x ∷ events) =
      if unmounted then accepted unmounted events else (t, x) ∷ accepted unmounted events
  accepted unmounted (answered i name ∷ events) = accepted unmounted events
  accepted unmounted (unmounts ∷ events) = accepted true events

  -- A deletion that comes while other events wait is produced before all of them.
  pub step-deleted :
      (x : T) (a : Activator T)
      → a.unmounted ≡ false
      → step (received deleted x) a
        ≡ (a, record { type = deleted; value = x; project_name = none } ∷ [])
  unfolding step
  step-deleted x a h = rw h refl

  abbrev unmounted_after : Event T → Bool → Bool
  unmounted_after (received t x) unmounted = unmounted
  unmounted_after (answered i name) unmounted = unmounted
  unmounted_after unmounts unmounted = true

  accepted-cons :
      (event : Event T) (events : List (Event T)) (unmounted : Bool)
      → accepted unmounted (event ∷ events)
        ≡ accepted unmounted (event ∷ []) ++ accepted (unmounted_after event unmounted) events
  accepted-cons (received t x) events true = refl
  accepted-cons (received t x) events false = refl
  accepted-cons (answered i name) events unmounted = refl
  accepted-cons unmounts events unmounted = refl

  step-unmounted :
      (event : Event T) (a : Activator T)
      → (step event a).0.unmounted ≡ unmounted_after event a.unmounted
  unfolding step receive produce answer
  step-unmounted (received added x) a = ground arith
  step-unmounted (received updated x) a = ground arith
  step-unmounted (received deleted x) a = ground arith
  step-unmounted (received (other t) x) a = ground arith
  step-unmounted (answered i name) a = ground arith
  step-unmounted unmounts a = refl

  produce-perm :
      (t : EventType) (x : T) (a : Activator T)
      → Perm (bare (produce t x a).1 ++ (produce t x a).0.waiting) (a.waiting ++ (t, x) ∷ [])
  unfolding produce
  produce-perm added x a = Perm.rfl
  produce-perm updated x a = Perm.rfl
  produce-perm deleted x a = Perm.symm (perm_append_singleton (deleted, x) a.waiting)
  produce-perm (other t) x a = Perm.rfl

  step-perm :
      (event : Event T) (a : Activator T)
      → Perm
          (bare (step event a).1 ++ (step event a).0.waiting)
          (a.waiting ++ accepted a.unmounted (event ∷ []))
  unfolding step receive
  step-perm (received t x) a = elim (Bool-cases a.unmounted) [
    | inl gone ↦ rw (gone, append-nil a.waiting) Perm.rfl
    | inr here ↦ simp here (produce-perm t x a)
  ]
  step-perm (answered i name) a = elim (Option-cases (get_elem? a.waiting i)) [
    | inl missing ↦ rw (missing, answer, append-nil a.waiting) Perm.rfl
    | inr (entry, there) ↦
        rw (there, answer, append-nil a.waiting)
          (Perm.symm (remove_at-perm i a.waiting entry there))
  ]
  step-perm unmounts a = rw (append-nil a.waiting) Perm.rfl

  bare-append : (xs ys : List (Produced T)) → bare (xs ++ ys) ≡ bare xs ++ bare ys
  bare-append [] ys = refl
  bare-append (x ∷ xs) ys = ap (◌∷◌ (x.type, x.value)) (bare-append xs ys)

  run-perm :
      (events : List (Event T)) (a : Activator T)
      → Perm
          (bare (run events a).1 ++ (run events a).0.waiting)
          (a.waiting ++ accepted a.unmounted events)
  unfolding run
  run-perm [] a = rw (append-nil a.waiting) Perm.rfl
  run-perm (event ∷ events) a =
      let next = (step event a).0 in
      let rest = run-perm events next in
      let first = step-perm event a in
      rw (bare-append (step event a).1 (run events next).1, accepted-cons event events a.unmounted)
        (simp append_assoc (
          Perm.trans (Perm.append_left (bare (step event a).1) rest) (
            rw (sym (step-unmounted event a))
              (simp append_assoc at (Perm.append_right (accepted next.unmounted events) first)))))

  -- Whatever comes, and in whatever order the projects are answered, the events that were produced,
  -- with those that still wait for their project, are the events that came before the widget was
  -- unmounted, each as often: none is lost and none is doubled.
  pub run-new_activator :
      (events : List (Event T))
      → let (a, produced) = run events new_activator in
        Perm (bare produced ++ a.waiting) (accepted false events)
  run-new_activator events = run-perm events new_activator
