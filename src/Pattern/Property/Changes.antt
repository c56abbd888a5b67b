-- ===== src/Pattern/Property/Changes.antt =====
-- When consumers are called, and that what they were told last is the value.
use art_platform.Common.{
  ◌≡◌, ◌⊎◌, inl, inr, refl, sym, ap, ◌∙◌, Bool, true, false, not, Option, none, some, List, [], ◌∷◌,
  ◌++◌, arith, if◌then◌else◌, DeepEqual, Option-cases, ==_iff, ==_refl,
}
use art_platform.Pattern.Property.Defs.{
  Property, refused, call_all, consume, equals_value, set_value, set_values,
}

module _ {ℓ κ} {T : Type ℓ} {H : Type κ} where
  -- The value kept for consumers to come is the value, or there is none.
  abbrev pub IsSettled : Property T H → Type ℓ
  IsSettled p = (p.pending ≡ none) ⊎ (p.pending ≡ p.value)

module _ {ℓ} {T : Type ℓ} ⦃e : DeepEqual T⦄ where
  -- The value changes, or one that is not defined is set again.
  abbrev pub changes : Option T → Option T → Bool
  changes none v = true
  changes (some old) v = not (equals_value old v)

module _ {ℓ κ} {T : Type ℓ} {H : Type κ} ⦃e : DeepEqual T⦄ where
  -- An assignment calls every consumer once, in order, with the new value, if the value changes
  -- and no guard refuses, and then keeps the old value; otherwise it calls nobody, and the value
  -- and the previous value stay.
  pub set_value_lem :
      (v : Option T) (p : Property T H)
      → let (p', calls) = set_value v p in
        let goes = (if changes p.value v then not (refused v p) else false) in
        (calls ≡ (if goes then call_all p.after_update v else []))
        × (p'.value ≡ (if goes then v else p.value))
        × (p'.previous ≡ (if goes then p.value else p.previous))
        × (p'.after_update ≡ p.after_update)
  unfolding set_value
  set_value_lem none p = ground arith
  set_value_lem (some v) p = elim (Option-cases p.value) [
    | inl unset ↦ ground arith
    | inr (old, held) ↦ ground (arith, ==_iff old v)
  ]

  -- Assigning a defined value that was accepted a second time changes nothing and calls nobody.
  pub set_value_again :
      (v : T) (p : Property T H)
      → refused (some v) p ≡ false
      → let p' = (set_value (some v) p).0 in set_value (some v) p' ≡ (p', [])
  unfolding set_value
  set_value_again v p h = ground (arith, ==_refl v)

  pub set_value-IsSettled :
      (v : Option T) (p : Property T H) → IsSettled p → IsSettled (set_value v p).0
  unfolding set_value
  set_value-IsSettled v p s = ground arith

  -- The value of the last call, or the given one where there is no call.
  abbrev pub last_sent : Option T → List (H × Option T) → Option T
  last_sent v [] = v
  last_sent v (c ∷ calls) = last_sent c.1 calls

  last_sent-append :
      (v : Option T) (xs ys : List (H × Option T))
      → last_sent v (xs ++ ys) ≡ last_sent (last_sent v xs) ys
  last_sent-append v [] ys = refl
  last_sent-append v (x ∷ xs) ys = last_sent-append x.1 xs ys

  last_sent-call_all :
      (v w : Option T) (h : H) (hs : List H) → last_sent v (call_all (h ∷ hs) w) ≡ w
  last_sent-call_all v w h [] = refl
  last_sent-call_all v w h (g ∷ hs) = last_sent-call_all w w g hs

  set_value-last_sent :
      (v : Option T) (p : Property T H) (h : H) (hs : List H)
      → p.after_update ≡ h ∷ hs
      → ((set_value v p).0.value ≡ last_sent p.value (set_value v p).1)
        × ((set_value v p).0.after_update ≡ h ∷ hs)
  set_value-last_sent v p h hs e =
      let (calls, value, previous, same) = set_value_lem v p in
      (ground (arith, calls, value, last_sent-call_all p.value v h hs), same ∙ e)

  -- Where there is a consumer, the value after any assignments is what the last call told it, or
  -- the value from before where nobody was called.
  pub set_values-last_sent :
      (vs : List (Option T)) (p : Property T H) (h : H) (hs : List H)
      → p.after_update ≡ h ∷ hs
      → (set_values vs p).0.value ≡ last_sent p.value (set_values vs p).1
  unfolding set_values
  set_values-last_sent [] p h hs e = refl
  set_values-last_sent (v ∷ vs) p h hs e =
      let (now, same) = set_value-last_sent v p h hs e in
      set_values-last_sent vs (set_value v p).0 h hs same
      ∙ ap (λ w. last_sent w (set_values vs (set_value v p).0).1) now
      ∙ sym (last_sent-append p.value (set_value v p).1 (set_values vs (set_value v p).0).1)

  -- A consumer that comes late to a settled property is called at once with the value, if one was
  -- assigned; so it knows the value.
  pub consume_late :
      (h : H) (p : Property T H) (v : T)
      → IsSettled p
      → p.pending ≡ some v
      → (p.value ≡ some v) × ((consume h p).1 ≡ (h, p.value) ∷ [])
  unfolding consume
  consume_late h p v s e = ground arith
