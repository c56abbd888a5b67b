-- ===== src/Pattern/Caches.antt =====
-- framework/pattern/Lazy.ts and framework/pattern/ArrayCache.ts: values that are made once. What a
-- factory gives at a call is an argument of the call; `hash` stands for `hashOf`, which hashes with
-- a package.
use art_platform.Common.{
  ◌≡◌, refl, ap, Bool, true, false, Option, none, some, List, [], ◌∷◌, ◌++◌, map, arith, DeepEqual,
  ◌==◌, ==_iff, find?, find?-append,
}
use mathlib.Core.Option
use mathlib.Core.Path.{ap₂}
use art_platform.Extensions.Maps.{get, set, get-set}

module _ {ℓ} {T : Type ℓ} where
  -- `lazy`: the value and whether the factory is called; `none` is `undefined`.
  unfoldable pub read_lazy : Option T → Option T → Option T × Bool
  read_lazy made (some v) = (some v, false)
  read_lazy made none = (made, true)

  -- Readings one after the other, with what the factory would make at each: the values read, and
  -- which of the readings call the factory.
  unfoldable pub read_all : List (Option T) → Option T → List (Option T × Bool)
  unfolding read_lazy
  read_all [] value = []
  read_all (made ∷ rest) value = let now = read_lazy made value in now ∷ read_all rest now.0

  -- Once a lazy value is there, every reading gives it and calls no factory.
  pub read_all_lem :
      (mades : List (Option T)) (v : T)
      → read_all mades (some v) ≡ map (λ made. (some v, false)) mades
  unfolding read_all
  read_all_lem [] v = refl
  read_all_lem (made ∷ rest) v = ap (◌∷◌ (some v, false)) (read_all_lem rest v)

module _ {ℓ κ μ} {T : Type ℓ} {K : Type κ} {W : Type μ} ⦃e : DeepEqual K⦄ (hash : List T → K)
    (factory : List T → W) where
  -- `arrayCache`: the cache after a call, and the widget; and the calls of the factory.
  unfoldable pub cached : List T → List (K × W) → List (K × W) × W
  cached elements cache = elim (get (hash elements) cache) [
    | some widget ↦ (cache, widget)
    | none ↦ (set (hash elements) (factory elements) cache, factory elements)
  ]

  unfoldable pub cached_all : List (List T) → List (K × W) → List (K × W) × List W
  cached_all [] cache = (cache, [])
  cached_all (elements ∷ rest) cache =
      let now = cached elements cache in
      let later = cached_all rest now.0 in (later.0, now.1 ∷ later.1)

  -- The first of the arrays seen that has the hash of the given one, or this itself.
  abbrev pub first_like : List (List T) → List T → List T
  first_like seen elements = elim (find? (λ other. hash other == hash elements) seen) [
    | some other ↦ other
    | none ↦ elements
  ]

  -- What each call shows: what the factory makes of the first array with the same hash.
  abbrev pub first_widgets : List (List T) → List (List T) → List W
  first_widgets seen [] = []
  first_widgets seen (elements ∷ rest) =
      factory (first_like seen elements) ∷ first_widgets (seen ++ elements ∷ []) rest

  -- The cache has what the factory made of the first array of each hash.
  abbrev Remembers : List (List T) → List (K × W) → Type (κ ⊔ μ)
  Remembers seen cache =
      (k : K) → get k cache ≡ Option.map factory (find? (λ other. hash other == k) seen)

  cached-Remembers :
      (seen : List (List T)) (elements : List T) (cache : List (K × W))
      → Remembers seen cache
      → Remembers (seen ++ elements ∷ []) (cached elements cache).0
  unfolding cached
  cached-Remembers seen elements cache r k = ground (
    arith,
    ==_iff (hash elements) k,
    r k,
    r (hash elements),
    get-set (hash elements) k (factory elements) cache,
    find?-append (λ other. hash other == k) seen (elements ∷ []),
  )

  cached-widget :
      (seen : List (List T)) (elements : List T) (cache : List (K × W))
      → Remembers seen cache
      → (cached elements cache).1 ≡ factory (first_like seen elements)
  unfolding cached
  cached-widget seen elements cache r = ground (arith, r (hash elements))

  cached_all-Remembers :
      (rest seen : List (List T)) (cache : List (K × W))
      → Remembers seen cache
      → (cached_all rest cache).1 ≡ first_widgets seen rest
  unfolding cached_all
  cached_all-Remembers [] seen cache r = refl
  cached_all-Remembers (elements ∷ rest) seen cache r =
      ap₂ ◌∷◌ (cached-widget seen elements cache r) (
        cached_all-Remembers rest (seen ++ elements ∷ []) (cached elements cache).0
          (cached-Remembers seen elements cache r))

  -- Call after call, a cache of arrays shows what its factory makes of the first array that had the
  -- hash of the one it is called with: its own, unless another with the same hash came before.
  pub cached_all_lem : (calls : List (List T)) → (cached_all calls []).1 ≡ first_widgets [] calls
  unfolding get
  cached_all_lem calls = cached_all-Remembers calls [] [] (λ k. refl)
