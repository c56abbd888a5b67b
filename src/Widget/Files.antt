-- ===== src/Widget/Files.antt =====
-- framework/dsl/managed/ManagedFileLoader.tsx: the files that a form is given, and their contents.
mod Defs
mod Replacing
mod Cases
pub mod Names
pub mod Late
pub mod Bounds
unfoldable pub use Defs.*
