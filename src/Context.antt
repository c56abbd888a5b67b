-- ===== src/Context.antt =====
-- context/PlatformContext.ts with the synchronizer of its widget (framework/widgets/Widget.tsx).
mod Defs
pub mod Loading
pub mod Reloading
unfoldable pub use Defs.*
