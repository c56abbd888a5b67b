-- ===== src/Widget/Collection.antt =====
-- framework/dsl/managed/ManagedCollection.tsx: the class `Configuration` and its generator of ids.
mod Defs
pub mod Ids
pub mod Given
pub mod Traces
pub mod Validation
unfoldable pub use Defs.*
