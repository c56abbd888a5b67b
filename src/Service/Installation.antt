-- ===== src/Service/Installation.antt =====
-- service/ModuleInstallationService.ts: an installation allocates the files of a module, starts,
-- uploads the files and lets the platform go on when the last upload is done.
mod Defs
pub mod Runs
pub mod Uploads
unfoldable pub use Defs.*
