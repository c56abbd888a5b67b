-- ===== src/Widget/Grid/Defs.antt =====
-- The class `ManagedGrid`: its items, known by their widgets, and the property `keys`. The methods
-- that are given items instead of widgets are left out.
use art_platform.Common.{
  ℕ, Bool, none, some, List, [], ◌∷◌, ◌++◌, map, find?, find_index?, any, remove_at, DeepEqual,
  ◌==◌,
}

pub record Grid {ℓ κ} (W : Type ℓ) (K : Type κ) : Type (ℓ ⊔ κ) where
  pub items : List W
  pub keys : List K

module _ {ℓ κ} {W : Type ℓ} {K : Type κ} ⦃e : DeepEqual K⦄ (key : W → K) where
  abbrev pub empty_grid : Grid W K
  empty_grid = record { items = []; keys = [] }

  unfoldable pub unshift_widget : W → Grid W K → Grid W K
  unshift_widget w g = record { items = w ∷ g.items; keys = key w ∷ g.keys }

  unfoldable pub push_widget : W → Grid W K → Grid W K
  push_widget w g = record { items = g.items ++ w ∷ []; keys = g.keys ++ key w ∷ [] }

  unfoldable pub push_widgets : List W → Grid W K → Grid W K
  push_widgets ws g = record { items = g.items ++ ws; keys = g.keys ++ map key ws }

  -- `widgets.forEach(widget => this.#items.unshift(...))`
  unfoldable pub unshift_all : List W → List W → List W
  unshift_all [] items = items
  unshift_all (w ∷ ws) items = unshift_all ws (w ∷ items)

  unfoldable pub unshift_widgets : List W → Grid W K → Grid W K
  unfolding unshift_all
  unshift_widgets ws g = record { items = unshift_all ws g.items; keys = map key ws ++ g.keys }

  -- `removeIndex` filters both lists by the index.
  unfoldable pub remove_index : ℕ → Grid W K → Grid W K
  remove_index i g = record { items = remove_at i g.items; keys = remove_at i g.keys }

  unfoldable pub remove_key : K → Grid W K → Grid W K
  unfolding remove_index
  remove_key k g = elim (find_index? (λ current. current == k) g.keys) [
    | none ↦ g
    | some i ↦ remove_index i g
  ]

  unfoldable pub has_key : K → Grid W K → Bool
  has_key k g = any (λ current. current == k) g.keys

  unfoldable pub replace_widget : W → Grid W K → Grid W K
  unfolding remove_key push_widget
  replace_widget w g = push_widget w (remove_key (key w) g)

  unfoldable pub set_widgets : List W → Grid W K → Grid W K
  unfolding push_widgets
  set_widgets ws g = push_widgets ws (record { items = []; keys = [] })

  -- `keys.map(key => current.find(...)).filter(widget => widget != undefined)`
  abbrev pub widgets_of : List K → List W → List W
  widgets_of [] current = []
  widgets_of (k ∷ ks) current =
      let rest = widgets_of ks current in
      elim (find? (λ w. key w == k) current) [ none ↦ rest | some w ↦ w ∷ rest ]

  unfoldable pub arrange_widgets : List K → Grid W K → Grid W K
  unfolding set_widgets
  arrange_widgets ks g = set_widgets (widgets_of ks g.items) g
