-- ===== src/Widget/Grid.antt =====
-- framework/dsl/managed/ManagedGrid.tsx: the widgets of a grid, and the list of their keys.
mod Defs
pub mod Keys
pub mod Reversed
unfoldable pub use Defs.*
