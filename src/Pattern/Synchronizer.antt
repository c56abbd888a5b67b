-- ===== src/Pattern/Synchronizer.antt =====
-- framework/pattern/Synchronizer.ts: a synchronizer starts actions and counts their reports. An
-- action and a listener is a name; a method returns what it calls, in order, beside the new state.
-- An action reports by calling `process`, in its own call or later: a report is an event from
-- outside.
mod Defs
pub mod Plain
pub mod Managed
unfoldable pub use Defs.*
