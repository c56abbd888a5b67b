-- ===== src/Service/Updating.antt =====
-- service/ModuleUpdatingService.ts: an update keeps the files that the module has and the
-- configuration names, allocates the new ones, starts, uploads what has bytes and lets the platform
-- go on when the last upload is done.
mod Defs
pub mod Uploads
pub mod Runs
unfoldable pub use Defs.*
