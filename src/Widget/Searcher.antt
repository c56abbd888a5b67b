-- ===== src/Widget/Searcher.antt =====
-- framework/dsl/managed/ManagedSearcher.tsx: the choice of several of the available values, kept in
-- two properties that follow each other.
mod Defs
mod Indexes
pub mod Settling
unfoldable pub use Defs.*
