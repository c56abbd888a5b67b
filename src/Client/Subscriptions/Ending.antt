-- ===== src/Client/Subscriptions/Ending.antt =====
-- The end of a request, from before the last disposal or after it.
use mathlib.Core.Path.{subst}
use art_platform.Common.{
  ℕ, ◌≡◌, refl, sym, ap, ◌∙◌, false, none, some, List, DeepEqual, nat_eq, ◌==◌, ==_iff,
  Option-cases, inl, inr, arith,
}
use art_platform.Extensions.Maps.{
  get, delete, remove, contains, Unique, get-delete, delete-Distinct, remove-Unique,
  contains-remove, remove-map,
}
use art_platform.Client.Subscriptions.Defs.{Client, drop_subscription}
use art_platform.Client.Subscriptions.Live.{
  values, IsTracked, delete_absent, remove_absent, not_live,
}

module _ {ℓ} {S : Type ℓ} ⦃e : DeepEqual S⦄ where
  pub drop_ended :
      (request : ℕ) (c : Client S) → get request c.held ≡ none → drop_subscription request c ≡ c
  unfolding drop_subscription
  drop_ended request c ended = rw (ended, drop_subscription) refl

  dropped : ℕ → S → Client S → Client S
  dropped request s c = record c {
    subscriptions = remove s c.subscriptions;
    held = delete request c.held;
  }

  drop_held :
      (request : ℕ) (s : S) (c : Client S)
      → get request c.held ≡ some s
      → drop_subscription request c ≡ dropped request s c
  unfolding drop_subscription dropped
  drop_held request s c held = rw (held, drop_subscription) refl

  -- A request from before the last disposal ends.
  drop_old-IsTracked :
      (request : ℕ) (s : S) (live : List (ℕ × S)) (c : Client S)
      → IsTracked live c
      → get request c.held ≡ some s
      → get request live ≡ none
      → IsTracked live (dropped request s c)
  unfolding dropped
  drop_old-IsTracked request s live c t held old = record {
    tracked = ap (remove s) t.tracked ∙ remove_absent s (values live) (t.apart request s held old);
    unique = t.unique;
    held_once = delete-Distinct request c.held t.held_once;
    live_once = t.live_once;
    is_held = λ r v g.
        ground
          (arith, g, old, ==_iff request r, get-delete request r c.held t.held_once, t.is_held r v);
    apart = λ r v g a. t.apart r v (ground (arith, g, get-delete request r c.held t.held_once)) a;
  }

  -- A live request ends.
  drop_live-IsTracked :
      (request : ℕ) (s : S) (live : List (ℕ × S)) (c : Client S)
      → IsTracked live c
      → get request c.held ≡ some s
      → get request live ≡ some s
      → IsTracked (delete request live) (dropped request s c)
  unfolding dropped
  drop_live-IsTracked request s live c t held there =
      let removed : remove s (values live) ≡ values (delete request live) =
        remove-map request s live t.unique there in
      record {
        tracked = ap (remove s) t.tracked ∙ removed;
        unique = subst Unique removed (remove-Unique s (values live) t.unique);
        held_once = delete-Distinct request c.held t.held_once;
        live_once = delete-Distinct request live t.live_once;
        is_held = λ r v g. ground (
          arith,
          g,
          get-delete request r c.held t.held_once,
          get-delete request r live t.live_once,
          t.is_held r v,
        );
        apart = λ r v g a.
            let other : (request == r) ≡ false =
              ground (arith, g, get-delete request r c.held t.held_once) in
            let before : get r c.held ≡ some v =
              ground (arith, g, other, get-delete request r c.held t.held_once) in
            let gone : get r live ≡ none =
              ground (arith, a, other, get-delete request r live t.live_once) in
            ap (contains v) (sym removed)
            ∙ contains-remove s v (values live) (t.apart r v before gone);
      }

  pub drop_subscription-IsTracked :
      (request : ℕ) (live : List (ℕ × S)) (c : Client S)
      → IsTracked live c
      → IsTracked (delete request live) (drop_subscription request c)
  unfolding drop_subscription
  drop_subscription-IsTracked request live c t = elim (Option-cases (get request c.held)) [
    | inl ended ↦
        subst (λ l. IsTracked l (drop_subscription request c))
          (sym (delete_absent request live (not_live request live c t ended)))
          (subst (IsTracked live) (sym (drop_ended request c ended)) t)
    | inr (s, held) ↦
        subst (IsTracked (delete request live)) (sym (drop_held request s c held))
          (elim (Option-cases (get request live)) [
            | inl old ↦
                subst (λ l. IsTracked l (dropped request s c))
                  (sym (delete_absent request live old))
                  (drop_old-IsTracked request s live c t held old)
            | inr (v, there) ↦
                drop_live-IsTracked request s live c t held
                  (there ∙ sym (t.is_held request v there) ∙ held)
          ])
  ]
