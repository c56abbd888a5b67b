-- ===== src/Client/Subscriptions/Defs.antt =====
-- `requestStream`, `chunkedRequest` and `disposeRsocket`, from when the socket gave a subscription.
-- A request is known by a number; `held` is what the variables hold that are neither undefined nor
-- null. The callbacks of the two methods are the same but for the number of responses they ask for.
use art_platform.Common.{
  ℕ, Bool, true, none, some, List, [], ◌∷◌, ◌++◌, map, DeepEqual, nat_eq, if◌then◌else◌,
}
use art_platform.Extensions.Maps.{get, set, delete, add, remove}

pub record Client {ℓ} (S : Type ℓ) : Type ℓ where
  pub subscriptions : List S
  pub held : List (ℕ × S)
  pub rsocket : Bool

-- What the client asks of a subscription or of the socket, and the handlers of requests that it
-- calls.
pub data Call {ℓ} (S : Type ℓ) : Type ℓ where
  requested : S → ℕ → Call S
  cancelled : S → Call S
  completed failed : ℕ → Call S
  closed : Call S

-- What the socket tells a request, and what the program asks of it: `cancels` is the call of the
-- function that the request returned.
pub data Event {ℓ} (S : Type ℓ) : Type ℓ where
  subscribes : ℕ → S → ℕ → Event S
  completes fails cancels : ℕ → Event S
  disposes : Event S

module _ {ℓ} {S : Type ℓ} ⦃e : DeepEqual S⦄ where
  abbrev pub new_client : Client S
  new_client = record { subscriptions = []; held = []; rsocket = true }

  -- `onSubscribe`
  unfoldable pub subscribe : ℕ → S → ℕ → Client S → Client S × List (Call S)
  subscribe request subscription count c = (
    record c {
      subscriptions = add subscription c.subscriptions;
      held = set request subscription c.held;
    },
    requested subscription count ∷ [],
  )

  -- `if (subscription) { this.#subscriptions.delete(subscription); subscription = null; }`
  unfoldable pub drop_subscription : ℕ → Client S → Client S
  drop_subscription request c = elim (get request c.held) [
    | none ↦ c
    | some subscription ↦ record c {
      subscriptions = remove subscription c.subscriptions;
      held = delete request c.held;
    }
  ]

  -- The function that is returned.
  unfoldable pub cancel : ℕ → Client S → Client S × List (Call S)
  unfolding drop_subscription
  cancel request c = elim (get request c.held) [
    | none ↦ (c, [])
    | some subscription ↦ (drop_subscription request c, cancelled subscription ∷ [])
  ]

  -- `disposeRsocket`, with `#closeRsocket`
  unfoldable pub dispose : Client S → Client S × List (Call S)
  dispose c = (
    record c { subscriptions = [] },
    map cancelled c.subscriptions ++ (if c.rsocket then closed ∷ [] else []),
  )

  unfoldable pub step : Event S → Client S → Client S × List (Call S)
  unfolding subscribe drop_subscription cancel dispose
  step (subscribes request subscription count) c = subscribe request subscription count c
  step (completes request) c = (drop_subscription request c, completed request ∷ [])
  step (fails request) c = (drop_subscription request c, failed request ∷ [])
  step (cancels request) c = cancel request c
  step disposes c = dispose c

  unfoldable pub run : List (Event S) → Client S → Client S × List (Call S)
  unfolding step
  run [] c = (c, [])
  run (event ∷ events) c =
      let first = step event c in let rest = run events first.0 in (rest.0, first.1 ++ rest.1)
