-- ===== src/Client/Subscriptions.antt =====
-- The subscriptions of a client: the set `#subscriptions`, and what each request keeps of its own
-- subscription in the variable that its callbacks share.
mod Defs
pub mod Live
mod Ending
pub mod Tracked
unfoldable pub use Defs.*
