-- ===== src/Loader/Resources.antt =====
-- loader/ResourcesLoader.ts: five lists of resources, loaded together, and the store that is made
-- of them when the last has come.
mod Defs
pub mod Loading
pub mod Stores
pub mod Stale
unfoldable pub use Defs.*
