-- ===== src/Widget/Grid/Reversed.antt =====
-- Several widgets put in front of a grid.
use art_platform.Common.{◌≡◌, [], ◌∷◌, arith, DeepEqual, ==_iff}
use art_platform.Widget.Grid.Defs.{Grid, unshift_all, unshift_widgets, remove_index, remove_key}

module _ {ℓ κ} {W : Type ℓ} {K : Type κ} ⦃e : DeepEqual K⦄ (key : W → K) where
  -- If two widgets are put in front of a grid at once, the key of the first takes out the item of
  -- the second: the first is still shown, under the key of the second.
  pub remove_key-unshift_widgets :
      (first second : W) (g : Grid W K)
      → remove_key key (key first) (unshift_widgets key (first ∷ second ∷ []) g)
        ≡ record { items = first ∷ g.items; keys = key second ∷ g.keys }
  unfolding remove_key remove_index unshift_widgets unshift_all
  remove_key-unshift_widgets first second g = ground (arith, ==_iff (key first) (key first))
