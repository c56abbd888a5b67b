-- ===== src/Widget/Files/Replacing.antt =====
-- `findIndex` with the replacement or the addition that follows it.
use art_platform.Common.{
  ℕ, suc, ◌≡◌, refl, Bool, String, List, [], ◌∷◌, map, filter, All, arith, if◌then◌else◌, ◌==◌,
  string_eq, ==_iff, find_index_from,
}
use mathlib.Core.Option
use art_platform.Extensions.Maps.{add, contains}
use art_platform.Widget.Files.Defs.{replace_or_append}

module _ {ℓ} {A : Type ℓ} where
  find_index_from-suc :
      (n : ℕ) (p : A → Bool) (xs : List A)
      → find_index_from (suc n) p xs ≡ Option.map suc (find_index_from n p xs)
  find_index_from-suc n p [] = refl
  find_index_from-suc n p (x ∷ xs) = ground (arith, find_index_from-suc (suc n) p xs)

  pub replace_or_append_lem :
      (p : A → Bool) (a x : A) (xs : List A)
      → replace_or_append p a (x ∷ xs) ≡ (if p x then a ∷ xs else x ∷ replace_or_append p a xs)
  unfolding replace_or_append
  replace_or_append_lem p a x xs = ground (arith, find_index_from-suc 0 p xs)

  pub replace_or_append-All {κ} :
      (P : A → Type κ) (p : A → Bool) (a : A) (xs : List A)
      → P a
      → All P xs
      → All P (replace_or_append p a xs)
  replace_or_append-All P p a [] h all = unfold replace_or_append in (h, tt)
  replace_or_append-All P p a (x ∷ xs) h all =
      rw (replace_or_append_lem p a x xs) (ground (arith, replace_or_append-All P p a xs h all.1))

  pub filter-All {κ} :
      (P : A → Type κ) (p : A → Bool) (xs : List A) → All P xs → All P (filter p xs)
  filter-All P p [] all = tt
  filter-All P p (x ∷ xs) all = ground (arith, filter-All P p xs all.1)

  -- Where the elements are searched by their name, the names are those of a set.
  pub map-replace_or_append :
      (name : A → String) (a : A) (xs : List A)
      → map name (replace_or_append (λ x. name x == name a) a xs) ≡ add (name a) (map name xs)
  unfolding add contains
  map-replace_or_append name a [] = unfold replace_or_append in refl
  map-replace_or_append name a (x ∷ xs) = ground (
    arith,
    replace_or_append_lem (λ y. name y == name a) a x xs,
    ==_iff (name x) (name a),
    map-replace_or_append name a xs,
  )
