-- ===== src/Client/Subscriptions/Tracked.antt =====
-- What the disposal of a client cancels.
use mathlib.Core.Path.{subst}
use art_platform.Common.{
  ℕ, ◌≡◌, refl, sym, ap, ◌∙◌, false, none, some, List, [], ◌∷◌, ◌++◌, map, map-append, DeepEqual,
  nat_eq, ◌==◌, Option-cases, inl, inr, if◌then◌else◌, arith,
}
use art_platform.Extensions.Maps.{
  get, set, delete, add, has_key, contains, Unique, add_fresh, get-set, set-Distinct, append-Unique,
  contains-append, contains_of_get, get_of_no_key,
}
use art_platform.Client.Subscriptions.Defs.{
  Client, Event, subscribes, completes, fails, cancels, disposes, cancelled, closed, new_client,
  subscribe, drop_subscription, cancel, dispose, step, run,
}
use art_platform.Client.Subscriptions.Live.{
  values, live_through, IsTracked, Answered, set_absent, not_live, fresh_in_live, not_contained,
}
use art_platform.Client.Subscriptions.Ending.{drop_ended, drop_subscription-IsTracked}

module _ {ℓ} {S : Type ℓ} ⦃e : DeepEqual S⦄ where
  subscribe-IsTracked :
      (request : ℕ) (subscription : S) (count : ℕ) (live : List (ℕ × S)) (c : Client S)
      → IsTracked live c
      → has_key request c.held ≡ false
      → contains subscription (values c.held) ≡ false
      → IsTracked (set request subscription live) (subscribe request subscription count c).0
  unfolding subscribe add
  subscribe-IsTracked request subscription count live c t k s =
      let fresh = fresh_in_live subscription live c t s in
      let absent = not_live request live c t (get_of_no_key request c.held k) in
      let appended : values (set request subscription live) ≡ values live ++ subscription ∷ [] =
        ap values (set_absent request subscription live absent)
        ∙ map-append (λ entry. entry.1) live ((request, subscription) ∷ []) in
      record {
        tracked =
            ap (add subscription) t.tracked
            ∙ add_fresh subscription (values live) fresh
            ∙ sym appended;
        unique =
            subst Unique (sym appended) (append-Unique subscription (values live) fresh t.unique);
        held_once = set-Distinct request subscription c.held t.held_once;
        live_once = set-Distinct request subscription live t.live_once;
        is_held = λ r v g. ground (
          arith,
          g,
          get-set request r subscription live,
          get-set request r subscription c.held,
          t.is_held r v,
        );
        apart = λ r v g a.
            let other : (request == r) ≡ false =
              ground (arith, a, get-set request r subscription live) in
            let before : get r c.held ≡ some v =
              ground (arith, g, other, get-set request r subscription c.held) in
            let gone : get r live ≡ none =
              ground (arith, a, other, get-set request r subscription live) in
            ap (contains v) appended
            ∙ contains-append v (values live) (subscription ∷ [])
            ∙ not_contained subscription v (values live) (values c.held) (t.apart r v before gone)
                (contains_of_get r v c.held before) s;
      }

  cancel_ended :
      (request : ℕ) (c : Client S) → get request c.held ≡ none → cancel request c ≡ (c, [])
  unfolding cancel
  cancel_ended request c ended = rw (ended, cancel) refl

  cancel_held :
      (request : ℕ) (s : S) (c : Client S)
      → get request c.held ≡ some s
      → cancel request c ≡ (drop_subscription request c, cancelled s ∷ [])
  unfolding cancel
  cancel_held request s c held = rw (held, cancel) refl

  cancel-IsTracked :
      (request : ℕ) (live : List (ℕ × S)) (c : Client S)
      → IsTracked live c
      → IsTracked (delete request live) (cancel request c).0
  cancel-IsTracked request live c t = elim (Option-cases (get request c.held)) [
    | inl ended ↦
        subst (IsTracked (delete request live))
          (drop_ended request c ended ∙ sym (ap (λ r. r.0) (cancel_ended request c ended)))
          (drop_subscription-IsTracked request live c t)
    | inr (s, held) ↦
        subst (IsTracked (delete request live)) (sym (ap (λ r. r.0) (cancel_held request s c held)))
          (drop_subscription-IsTracked request live c t)
  ]

  dispose-IsTracked :
      (live : List (ℕ × S)) (c : Client S) → IsTracked live c → IsTracked [] (dispose c).0
  unfolding dispose get contains
  dispose-IsTracked live c t = record {
    tracked = refl;
    unique = tt;
    held_once = t.held_once;
    live_once = tt;
    is_held = λ r s g. absurd (cc);
    apart = λ r s g a. refl;
  }

  pub run-IsTracked :
      (events : List (Event S)) (live : List (ℕ × S)) (c : Client S)
      → IsTracked live c
      → Answered events c
      → IsTracked (live_through events live) (run events c).0
  unfolding run step
  run-IsTracked [] live c t a = t
  run-IsTracked (subscribes request subscription count ∷ events) live c t (k, s, a) =
      run-IsTracked events (set request subscription live)
        (step (subscribes request subscription count) c).0
        (subscribe-IsTracked request subscription count live c t k s) a
  run-IsTracked (completes request ∷ events) live c t a =
      run-IsTracked events (delete request live) (step (completes request) c).0
        (drop_subscription-IsTracked request live c t) a
  run-IsTracked (fails request ∷ events) live c t a =
      run-IsTracked events (delete request live) (step (fails request) c).0
        (drop_subscription-IsTracked request live c t) a
  run-IsTracked (cancels request ∷ events) live c t a =
      run-IsTracked events (delete request live) (step (cancels request) c).0
        (cancel-IsTracked request live c t) a
  run-IsTracked (disposes ∷ events) live c t a =
      run-IsTracked events [] (step disposes c).0 (dispose-IsTracked live c t) a

  -- Where the socket answers each request with one subscription of its own, the disposal of a
  -- client, after any events since it was made, earlier disposals too, cancels exactly the
  -- subscriptions of the requests that subscribed after the last disposal and have not ended since,
  -- each once and in the order in which they came. It closes the socket that there is, and leaves no
  -- subscription in the set.
  pub dispose-run :
      (events : List (Event S))
      → Answered events new_client
      → let c = (run events new_client).0 in
        let (disposed, calls) = dispose c in
        let live = live_through events [] in
        (calls ≡ map cancelled (values live) ++ (if c.rsocket then closed ∷ [] else []))
        × Unique (values live)
        × (disposed.subscriptions ≡ [])
  unfolding dispose get contains
  dispose-run events a =
      let c = (run events new_client).0 in
      let t =
        run-IsTracked events [] new_client
          (record {
            tracked = refl;
            unique = tt;
            held_once = tt;
            live_once = tt;
            is_held = λ r s g. g;
            apart = λ r s g absent. refl;
          })
          a in
      (
        ap (λ xs. map cancelled xs ++ (if c.rsocket then closed ∷ [] else [])) t.tracked,
        t.unique,
        refl,
      )
