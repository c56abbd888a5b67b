-- ===== src/Widget/Selector.antt =====
-- framework/dsl/managed/ManagedSelector.tsx: the choice of one of the available values, kept in two
-- properties that follow each other.
mod Defs
mod Searching
pub mod Settling
pub mod Available
unfoldable pub use Defs.*
