-- ===== src/Pattern/Conditional/Spawning.antt =====
-- Which widget an optional shows after it was spawned.
use art_platform.Common.{◌≡◌, refl, Bool, true, false, Option, some, arith, bool_eq, ℕ, zero, suc}
use art_platform.Pattern.Conditional.Defs.{
  Optional, Shown, shown, optional, spawn, destroy, draw_optional,
}

module _ {P W S : Type 0} (widget_of : Option P → W) where
  -- The optional is as its constructor made it, up to what is drawn and spawned: its conditional
  -- is cached and not persisted, and makes `widget_of p` from the properties `p`.
  pub record IsWired (o : Optional P W S) : Type 0 where
    pub cached : o.conditional.cached ≡ true
    pub fleeting : o.conditional.persisted ≡ false
    pub makes :
        (p : Option P) (current : Option W) → o.conditional.widget_factory p current ≡ widget_of p

  pub draw_optional-IsWired : (o : Optional P W S) → IsWired o → IsWired (draw_optional o).0
  unfolding draw_optional
  draw_optional-IsWired o w = record {
    cached = ground (arith, w.cached, w.fleeting);
    fleeting = ground (arith, w.cached, w.fleeting);
    makes = λ p current. ground (arith, w.makes p current, w.cached, w.fleeting);
  }

  -- The optional is drawn `n` more times, and this is what the last draw shows.
  unfoldable pub redraw : ℕ → Optional P W S → Shown W S
  redraw zero o = (draw_optional o).1
  redraw (suc n) o = redraw n (draw_optional o).0

  steady :
      (n : ℕ) (o : Optional P W S) (x : W)
      → IsWired o
      → o.spawned ≡ some true
      → o.conditional.last_cached_value ≡ some true
      → o.conditional.widget ≡ some x
      → redraw n o ≡ shown x
  unfolding redraw draw_optional
  steady zero o x w s l h = ground (arith, w.cached, w.fleeting)
  steady (suc n) o x w s l h =
      steady n (draw_optional o).0 x (draw_optional-IsWired o w) (ground arith)
        (ground (arith, w.cached, w.fleeting)) (ground (arith, w.cached, w.fleeting))

  draw_anew :
      (o : Optional P W S)
      → IsWired o
      → o.spawned ≡ some true
      → o.conditional.last_cached_value ≡ some false
      → let (o', result) = draw_optional o in
        (result ≡ shown (widget_of o.spawn_properties))
        × (o'.conditional.widget ≡ some (widget_of o.spawn_properties))
        × (o'.conditional.last_cached_value ≡ some true)
        × (o'.spawned ≡ some true)
  unfolding draw_optional
  draw_anew o w s l =
      ground (arith, w.cached, w.fleeting, w.makes o.spawn_properties o.conditional.widget)

  redraw_anew :
      (n : ℕ) (o : Optional P W S)
      → IsWired o
      → o.spawned ≡ some true
      → o.conditional.last_cached_value ≡ some false
      → redraw n o ≡ shown (widget_of o.spawn_properties)
  unfolding redraw
  redraw_anew zero o w s l = (draw_anew o w s l).0
  redraw_anew (suc n) o w s l =
      let (result, held, seen, still) = draw_anew o w s l in
      steady n (draw_optional o).0 (widget_of o.spawn_properties) (draw_optional-IsWired o w) still
        seen held

  destroy-IsWired : (o : Optional P W S) → IsWired o → IsWired (destroy o)
  unfolding destroy
  destroy-IsWired o w = record { cached = w.cached; fleeting = w.fleeting; makes = w.makes }

  spawn-IsWired : (p : Option P) (o : Optional P W S) → IsWired o → IsWired (spawn p o)
  unfolding spawn
  spawn-IsWired p o w = record { cached = w.cached; fleeting = w.fleeting; makes = w.makes }

  draw_hidden :
      (o : Optional P W S)
      → IsWired o
      → (draw_optional (destroy o)).0.conditional.last_cached_value ≡ some false
  unfolding draw_optional destroy
  draw_hidden o w = ground (arith, w.cached)

  -- If a wired optional is drawn after it was destroyed, the next spawn gives a widget made from the
  -- properties of that spawn, and every later draw shows this widget until it is destroyed.
  pub spawn_after_drawn_destroy :
      (o : Optional P W S) (p : Option P) (n : ℕ)
      → IsWired o
      → let hidden = (draw_optional (destroy o)).0 in
        redraw n (spawn p hidden) ≡ shown (widget_of p)
  unfolding spawn
  spawn_after_drawn_destroy o p n w =
      let hidden = (draw_optional (destroy o)).0 in
      redraw_anew n (spawn p hidden)
        (spawn-IsWired p hidden (draw_optional-IsWired (destroy o) (destroy-IsWired o w))) refl
        (draw_hidden o w)

  -- If a wired optional has shown a widget, and there is no draw between `destroy` and `spawn`, the
  -- widget from before is shown, whatever properties the new spawn is given.
  pub spawn_before_draw :
      (o : Optional P W S) (p : Option P) (x : W) (n : ℕ)
      → IsWired o
      → o.conditional.last_cached_value ≡ some true
      → o.conditional.widget ≡ some x
      → redraw n (spawn p (destroy o)) ≡ shown x
  unfolding spawn destroy
  spawn_before_draw o p x n w l h =
      steady n (spawn p (destroy o)) x (spawn-IsWired p (destroy o) (destroy-IsWired o w)) refl l h

pub optional-IsWired :
    {P W S : Type 0} (factory : Option P → W) (spawned : Option Bool) (wire : W → W) (empty : W)
    (stub : S)
    → IsWired (λ p. wire (factory p)) (optional factory spawned wire empty stub)
unfolding optional
optional-IsWired factory spawned wire empty stub = record {
  cached = refl;
  fleeting = refl;
  makes = λ p current. refl;
}
