-- ===== src/Pattern/Stream.antt =====
-- framework/pattern/Stream.ts: the subscribers of a stream of events and the delivery of an event.
-- A callback is a name of type `H`, and what a call of it does is not modelled: a method that calls
-- subscribers returns the calls in order. `doNothing` is `none`.
mod Defs
pub mod Tokens
pub mod Delivery
unfoldable pub use Defs.*
