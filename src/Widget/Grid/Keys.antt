-- ===== src/Widget/Grid/Keys.antt =====
-- The keys of a grid against its items.
use art_platform.Common.{
  ℕ, zero, suc, ◌≡◌, refl, sym, ap, ◌∙◌, true, none, some, List, [], ◌∷◌, ◌++◌, map, map-append,
  find?, find_index?, find_index_from, any, remove_at, arith, DeepEqual, ◌==◌, ==_iff, Option-cases,
  Bool-cases, inl, inr,
}
use mathlib.Core.Option
use mathlib.Core.Path.{ap₂}
use art_platform.Extensions.Maps.{contains, remove}
use art_platform.Widget.Grid.Defs.{
  Grid, push_widget, push_widgets, remove_index, remove_key, has_key, set_widgets, widgets_of,
  arrange_widgets,
}

module _ {ℓ κ} {W : Type ℓ} {K : Type κ} ⦃e : DeepEqual K⦄ (key : W → K) where
  -- The keys are those of the items, in order.
  abbrev pub InSync : Grid W K → Type κ
  InSync g = g.keys ≡ map key g.items

  map-remove_at : (i : ℕ) (ws : List W) → map key (remove_at i ws) ≡ remove_at i (map key ws)
  map-remove_at i [] = refl
  map-remove_at zero (w ∷ ws) = refl
  map-remove_at (suc i) (w ∷ ws) = ap (◌∷◌ (key w)) (map-remove_at i ws)

  pub push_widget-InSync : (w : W) (g : Grid W K) → InSync g → InSync (push_widget key w g)
  unfolding push_widget
  push_widget-InSync w g s = ap (λ ks. ks ++ key w ∷ []) s ∙ sym (map-append key g.items (w ∷ []))

  pub remove_key-InSync : (k : K) (g : Grid W K) → InSync g → InSync (remove_key key k g)
  unfolding remove_key remove_index
  remove_key-InSync k g s = elim (Option-cases (find_index? (λ current. current == k) g.keys)) [
    | inl absent ↦ rw (absent, remove_key) s
    | inr (i, found) ↦ rw (found, remove_key) (ap (remove_at i) s ∙ sym (map-remove_at i g.items))
  ]

  find_index-suc :
      (n : ℕ) (k : K) (ks : List K)
      → find_index_from (suc n) (λ current. current == k) ks
        ≡ Option.map suc (find_index_from n (λ current. current == k) ks)
  find_index-suc n k [] = refl
  find_index-suc n k (x ∷ ks) = ground (arith, find_index-suc (suc n) k ks)

  remove_found : (k : K) (ks : List K) → List K
  remove_found k ks = elim (find_index? (λ current. current == k) ks) [
    | none ↦ ks
    | some i ↦ remove_at i ks
  ]

  remove_found_lem : (k : K) (ks : List K) → remove_found k ks ≡ remove k ks
  unfolding remove_found remove
  remove_found_lem k [] = refl
  remove_found_lem k (x ∷ ks) = ground (arith, find_index-suc 0 k ks, remove_found_lem k ks)

  -- `removeKey` takes the key out of the keys.
  pub remove_key-keys : (k : K) (g : Grid W K) → (remove_key key k g).keys ≡ remove k g.keys
  unfolding remove_key remove_index remove_found
  remove_key-keys k g = ground (arith, remove_found_lem k g.keys)

  pub any-contains : (k : K) (ks : List K) → any (λ current. current == k) ks ≡ contains k ks
  unfolding contains
  any-contains k [] = refl
  any-contains k (x ∷ ks) = ground (arith, any-contains k ks)

  pub has_key-contains : (k : K) (g : Grid W K) → has_key key k g ≡ contains k g.keys
  unfolding has_key
  has_key-contains k g = any-contains k g.keys

  find?-contains :
      (k : K) (ws : List W)
      → contains k (map key ws) ≡ true
      → (w : W) × (find? (λ v. key v == k) ws ≡ some w) × (key w ≡ k)
  unfolding contains
  find?-contains k [] h = absurd (cc)
  find?-contains k (w ∷ ws) h = elim (Bool-cases (key w == k)) [
    | inl here ↦ (w, rw here refl, ground (arith, ==_iff (key w) k, here))
    | inr away ↦
        let (v, found, same) = find?-contains k ws (ground (arith, h, away)) in
        (v, rw away found, same)
  ]

  -- Every key of the list is that of an item.
  abbrev pub Covers : List K → List W → Type 0
  Covers [] ws = Unit
  Covers (k ∷ ks) ws = (contains k (map key ws) ≡ true) × Covers ks ws

  map-widgets_of : (ks : List K) (ws : List W) → Covers ks ws → map key (widgets_of key ks ws) ≡ ks
  map-widgets_of [] ws c = refl
  map-widgets_of (k ∷ ks) ws (here, c) =
      let (w, found, same) = find?-contains k ws here in
      rw (found, widgets_of) (ap₂ ◌∷◌ same (map-widgets_of ks ws c))

  -- Arranged by keys that its items have, a grid has exactly these, in the given order.
  pub arrange_widgets_lem :
      (ks : List K) (g : Grid W K)
      → Covers ks g.items
      → ((arrange_widgets key ks g).keys ≡ ks) × InSync (arrange_widgets key ks g)
  unfolding arrange_widgets set_widgets push_widgets
  arrange_widgets_lem ks g c = (map-widgets_of ks g.items c, refl)
