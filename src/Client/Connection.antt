-- ===== src/Client/Connection.antt =====
-- `connect`, `#processConnection` and `#startConnectionListening`.
use art_platform.Common.{
  ℕ, suc, ◌+◌, ◌≡◌, ◌≤◌, Bool, true, false, Option, none, some, String, List, [], ◌∷◌, ◌++◌,
  if◌then◌else◌, arith,
}

-- `ConnectionStatus` of rsocket-types, by its kind.
pub data Status : Type 0 where
  not_connected connecting connected closed error : Status

pub record Connection : Type 0 where
  pub name : Option String
  pub status : Status
  -- `#reconnectionInterval` is there
  pub listening : Bool

-- `dialled`: a connection of the socket is begun, with the handler of its success: that of
-- `connect`, or the one that reloads the page. `interval_set`: the timer.
pub data Effect : Type 0 where
  dialled : Bool → Effect
  interval_set interval_cleared page_reloaded connected_called failed_called : Effect

abbrev pub new_connection : Connection
new_connection = record { name = none; status = not_connected; listening = false }

unfoldable pub connect : String → Connection → Connection × List Effect
connect name c = elim c.status [
  | not_connected ↦ (record c { name = some name }, dialled false ∷ [])
  | connecting ↦ (c, [])
  | connected ↦ (c, [])
  | closed ↦ (c, [])
  | error ↦ (c, [])
]

unfoldable pub start_connection_listening : Connection → Connection × List Effect
start_connection_listening c =
    if c.listening then (c, []) else (record c { listening = true }, interval_set ∷ [])

-- The handler of a success: that of `connect`, or that of a reconnection.
unfoldable pub call_connected : Bool → Connection → List Effect
call_connected false c = connected_called ∷ []
call_connected true c =
    if c.listening then interval_cleared ∷ page_reloaded ∷ [] else page_reloaded ∷ []

-- The two answers to a dialling: `connected` says which handler of success it was given.
unfoldable pub succeed : Bool → Connection → Connection × List Effect
unfolding start_connection_listening call_connected
succeed reconnected c =
    let first = start_connection_listening c in
    (first.0, first.1 ++ call_connected reconnected first.0)

unfoldable pub fail : Connection → Connection × List Effect
unfolding start_connection_listening
fail c =
    let first = start_connection_listening (record c { status = error }) in
    (first.0, first.1 ++ failed_called ∷ [])

-- The callback of the timer reads the status of the client `platformClient()`, here `main`.
unfoldable pub tick : Status → Connection → Connection × List Effect
tick not_connected c = (c, dialled true ∷ [])
tick closed c = (c, dialled true ∷ [])
tick error c = (c, dialled true ∷ [])
tick connecting c = (c, [])
tick connected c = (c, [])

-- What happens to a client. `status_changes` is what the socket tells of its connection.
pub data Event : Type 0 where
  connects : String → Event
  succeeds : Bool → Event
  fails : Event
  status_changes : Status → Event
  ticks : Status → Event

unfoldable pub step : Event → Connection → Connection × List Effect
unfolding connect succeed fail tick
step (connects name) c = connect name c
step (succeeds reconnected) c = succeed reconnected c
step fails c = fail c
step (status_changes status) c = (record c { status = status }, [])
step (ticks main) c = tick main c

unfoldable pub run : List Event → Connection → Connection × List Effect
unfolding step
run [] c = (c, [])
run (event ∷ events) c =
    let first = step event c in let rest = run events first.0 in (rest.0, first.1 ++ rest.1)

abbrev pub intervals : List Effect → ℕ
intervals [] = 0
intervals (interval_set ∷ effects) = suc (intervals effects)
intervals (_ ∷ effects) = intervals effects

-- Whether the timer is there: 1 or 0.
abbrev pub timers : Connection → ℕ
timers c = if c.listening then 1 else 0

step-timers :
    (event : Event) (c : Connection)
    → intervals (step event c).1 + timers c ≡ timers (step event c).0
unfolding step connect succeed fail tick start_connection_listening call_connected
step-timers (connects name) c = ground arith
step-timers (succeeds reconnected) c = ground arith
step-timers fails c = ground arith
step-timers (status_changes status) c = ground arith
step-timers (ticks main) c = ground arith

intervals-append : (xs ys : List Effect) → intervals (xs ++ ys) ≡ intervals xs + intervals ys
intervals-append [] ys = omega arith
intervals-append (dialled again ∷ xs) ys = intervals-append xs ys
intervals-append (interval_set ∷ xs) ys = omega (arith, intervals-append xs ys)
intervals-append (interval_cleared ∷ xs) ys = intervals-append xs ys
intervals-append (page_reloaded ∷ xs) ys = intervals-append xs ys
intervals-append (connected_called ∷ xs) ys = intervals-append xs ys
intervals-append (failed_called ∷ xs) ys = intervals-append xs ys

run-timers :
    (events : List Event) (c : Connection)
    → intervals (run events c).1 + timers c ≡ timers (run events c).0
unfolding run
run-timers [] c = omega arith
run-timers (event ∷ events) c = omega (
  arith,
  step-timers event c,
  run-timers events (step event c).0,
  intervals-append (step event c).1 (run events (step event c).0).1,
)

-- Whatever happens to a new client, and in whatever order, it sets at most one timer of
-- reconnections: exactly one if it listens in the end, and none if not.
pub run-intervals :
    (events : List Event)
    → let (c, effects) = run events new_connection in
      (intervals effects ≤ 1) × (intervals effects ≡ timers c)
run-intervals events =
    let e = run-timers events new_connection in (ground (arith, e), omega (arith, e))
