-- ===== src/Client/Subscriptions/Live.antt =====
-- The requests of a client that have not ended since its last disposal, and what holds of them.
use art_platform.Common.{
  ℕ, ◌≡◌, refl, sym, ap, ◌∙◌, true, false, none, some, List, [], ◌∷◌, ◌++◌, map, DeepEqual, nat_eq,
  ◌==◌, ==_iff, Option-cases, Bool-cases, inl, inr, arith, ◌||◌,
}
use art_platform.Extensions.Maps.{
  get, set, delete, remove, has_key, contains, Unique, Distinct, contains_of_get, get_of_no_key,
}
use art_platform.Client.Subscriptions.Defs.{
  Client, Event, subscribes, completes, fails, cancels, disposes, step,
}

true_is_not_false : true ≡ false → ⊥
true_is_not_false h = cc

module _ {ℓ} {S : Type ℓ} ⦃e : DeepEqual S⦄ where
  abbrev pub values : List (ℕ × S) → List S
  values entries = map (λ entry. entry.1) entries

  -- The requests that subscribed after the last disposal and have not ended since, with their
  -- subscriptions, in the order in which these came.
  abbrev pub live_after : Event S → List (ℕ × S) → List (ℕ × S)
  live_after (subscribes request subscription count) live = set request subscription live
  live_after (completes request) live = delete request live
  live_after (fails request) live = delete request live
  live_after (cancels request) live = delete request live
  live_after disposes live = []

  abbrev pub live_through : List (Event S) → List (ℕ × S) → List (ℕ × S)
  live_through [] live = live
  live_through (event ∷ events) live = live_through events (live_after event live)

  -- The set has the subscriptions of the live requests, each once. Their variables hold them, and
  -- what the variables of other requests hold is not among them.
  pub record IsTracked (live : List (ℕ × S)) (c : Client S) : Type ℓ where
    pub tracked : c.subscriptions ≡ values live
    pub unique : Unique (values live)
    pub held_once : Distinct c.held
    pub live_once : Distinct live
    pub is_held : (r : ℕ) (s : S) → get r live ≡ some s → get r c.held ≡ some s
    pub apart :
        (r : ℕ) (s : S)
        → get r c.held ≡ some s
        → get r live ≡ none
        → contains s (values live) ≡ false

  -- The socket answers each request with one subscription, that no other request has.
  abbrev pub Answered : List (Event S) → Client S → Type 0
  Answered [] c = Unit
  Answered (subscribes request subscription count ∷ events) c =
      (has_key request c.held ≡ false)
      × (contains subscription (values c.held) ≡ false)
      × Answered events (step (subscribes request subscription count) c).0
  Answered (completes request ∷ events) c = Answered events (step (completes request) c).0
  Answered (fails request ∷ events) c = Answered events (step (fails request) c).0
  Answered (cancels request ∷ events) c = Answered events (step (cancels request) c).0
  Answered (disposes ∷ events) c = Answered events (step disposes c).0

  get_of_contains :
      (v : S) (m : List (ℕ × S))
      → Distinct m
      → contains v (values m) ≡ true
      → (k : ℕ) × (get k m ≡ some v)
  unfolding contains get has_key
  get_of_contains v [] d h = cc
  get_of_contains v ((j, w) ∷ m) d h = elim (Bool-cases (w == v)) [
    | inl same ↦ (j, ground (arith, ==_iff w v, ==_iff j j))
    | inr other ↦
        let (k, g) = get_of_contains v m d.1 (ground (arith, h, other)) in
        (k, ground (arith, g, ==_iff j k, get_of_no_key j m d.0))
  ]

  pub delete_absent : (k : ℕ) (m : List (ℕ × S)) → get k m ≡ none → delete k m ≡ m
  unfolding get delete
  delete_absent k [] h = refl
  delete_absent k ((j, w) ∷ m) h = ground (arith, h, delete_absent k m)

  pub set_absent :
      (k : ℕ) (v : S) (m : List (ℕ × S)) → get k m ≡ none → set k v m ≡ m ++ (k, v) ∷ []
  unfolding get set
  set_absent k v [] h = refl
  set_absent k v ((j, w) ∷ m) h = ground (arith, h, set_absent k v m)

  pub remove_absent : (v : S) (xs : List S) → contains v xs ≡ false → remove v xs ≡ xs
  unfolding contains remove
  remove_absent v [] h = refl
  remove_absent v (x ∷ xs) h = ground (arith, h, remove_absent v xs)

  pub not_live :
      (r : ℕ) (live : List (ℕ × S)) (c : Client S)
      → IsTracked live c
      → get r c.held ≡ none
      → get r live ≡ none
  not_live r live c t h = elim (Option-cases (get r live)) [
    | inl absent ↦ absent
    | inr (s, there) ↦ ground (arith, h, t.is_held r s there)
  ]

  pub fresh_in_live :
      (s : S) (live : List (ℕ × S)) (c : Client S)
      → IsTracked live c
      → contains s (values c.held) ≡ false
      → contains s (values live) ≡ false
  fresh_in_live s live c t h = elim (Bool-cases (contains s (values live))) [
    | inl there ↦
        let (r, g) = get_of_contains s live t.live_once there in
        ground (arith, h, contains_of_get r s c.held (t.is_held r s g))
    | inr absent ↦ absent
  ]

  pub not_contained :
      (a v : S) (xs ys : List S)
      → contains v xs ≡ false
      → contains v ys ≡ true
      → contains a ys ≡ false
      → (contains v xs || contains v (a ∷ [])) ≡ false
  unfolding contains
  not_contained a v xs ys x y n = elim (Bool-cases (a == v)) [
    | inl same ↦
        absurd (true_is_not_false (sym y ∙ ap (λ z. contains z ys) (sym ((==_iff a v).0 same)) ∙ n))
    | inr other ↦ ground (arith, x, other)
  ]
