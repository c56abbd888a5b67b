-- ===== src/Pattern/Conditional/Drawing.antt =====
-- When a conditional makes a new widget.
use art_platform.Common.{
  ◌≡◌, ◌≢◌, refl, Bool, true, false, Option, none, some, List, [], ◌∷◌, map, arith, if◌then◌else◌,
  DeepEqual, ==_iff, ==_refl, All,
}
use art_platform.Pattern.Conditional.Defs.{Conditional, Shown, shown, stubbed, create_stub, draw}

-- What a draw reads.
pub record Reading {ℓ} (E C : Type ℓ) : Type ℓ where
  pub env : E
  pub holds : Bool
  pub now : Option C

-- The cache function says `v` at every draw.
abbrev pub Says {ℓ} : {E C : Type ℓ} → C → List (Reading E C) → Type ℓ
Says v = All (λ r. r.now ≡ some v)

module _ {ℓ} {E W C S : Type ℓ} ⦃e : DeepEqual C⦄ where
  unfoldable pub draws :
      List (Reading E C) → Conditional E W C S → Conditional E W C S × List (Shown W S)
  draws [] c = (c, [])
  draws (r ∷ rs) c =
      let (c', result) = draw r.env r.holds r.now c in
      let (c'', results) = draws rs c' in (c'', result ∷ results)

  -- The widget where the predicate holds, the stub where not.
  abbrev pub either : W → S → Reading E C → Shown W S
  either w s r = if r.holds then shown w else stubbed s

  draw_persisted :
      (r : Reading E C) (w : W) (c : Conditional E W C S)
      → c.persisted ≡ true
      → c.widget ≡ some w
      → let (c', result) = draw r.env r.holds r.now c in
        (result ≡ either w (create_stub c) r)
        × (c'.persisted ≡ true)
        × (c'.widget ≡ some w)
        × (create_stub c' ≡ create_stub c)
  unfolding draw
  draw_persisted r w c p h = ground arith

  -- Once a persisted conditional has its widget, every later draw shows that widget or the stub.
  pub draws_persisted :
      (rs : List (Reading E C)) (w : W) (c : Conditional E W C S)
      → c.persisted ≡ true
      → c.widget ≡ some w
      → (draws rs c).1 ≡ map (either w (create_stub c)) rs
  unfolding draws
  draws_persisted [] w c p h = refl
  draws_persisted (r ∷ rs) w c p h =
      let (result, p', h', stub') = draw_persisted r w c p h in
      ground (arith, result, stub', draws_persisted rs w (draw r.env r.holds r.now c).0 p' h')

  -- The first draw in which the predicate holds gives a persisted conditional its widget.
  pub draw_persisted_first :
      (env : E) (now : Option C) (c : Conditional E W C S)
      → c.persisted ≡ true
      → c.widget ≡ none
      → let (c', result) = draw env true now c in
        (c'.widget ≡ some (c.widget_factory env none))
        × (result ≡ shown (c.widget_factory env none))
  unfolding draw
  draw_persisted_first env now c p h = ground arith

  draw_cached :
      (r : Reading E C) (v : C) (w : W) (c : Conditional E W C S)
      → c.persisted ≡ false
      → c.cached ≡ true
      → c.widget ≡ some w
      → c.last_cached_value ≡ some v
      → r.now ≡ some v
      → let (c', result) = draw r.env r.holds r.now c in
        (result ≡ either w (create_stub c) r)
        × (c'.persisted ≡ false)
        × (c'.cached ≡ true)
        × (c'.widget ≡ some w)
        × (c'.last_cached_value ≡ some v)
        × (create_stub c' ≡ create_stub c)
  unfolding draw create_stub
  draw_cached r v w c p k h l n = ground (arith, ==_refl v)

  -- While the cache function says what it said at the last draw, a cached conditional that is not
  -- persisted shows the widget that it has, and makes no other.
  pub draws_cached :
      (rs : List (Reading E C)) (v : C) (w : W) (c : Conditional E W C S)
      → c.persisted ≡ false
      → c.cached ≡ true
      → c.widget ≡ some w
      → c.last_cached_value ≡ some v
      → Says v rs
      → (draws rs c).1 ≡ map (either w (create_stub c)) rs
  unfolding draws
  draws_cached [] v w c p k h l n = refl
  draws_cached (r ∷ rs) v w c p k h l n =
      let (result, p', k', h', l', stub') = draw_cached r v w c p k h l n.0 in
      ground
        (arith, result, stub', draws_cached rs v w (draw r.env r.holds r.now c).0 p' k' h' l' n.1)

  -- When the predicate holds and the cache function says something new, a widget is made anew.
  pub draw_cached_anew :
      (env : E) (u v : C) (c : Conditional E W C S)
      → c.persisted ≡ false
      → c.cached ≡ true
      → c.last_cached_value ≡ some u
      → u ≢ v
      → (draw env true (some v) c).1 ≡ shown (c.widget_factory env c.widget)
  unfolding draw
  draw_cached_anew env u v c p k l ne = ground (arith, ==_iff u v)
