-- ===== src/Service/Cloning.antt =====
-- service/ModuleCloningService.ts: a clone allocates every file of the configuration, starts an
-- installation, uploads the files with bytes, asks the platform to copy the empty ones from the
-- module that is cloned, and lets the platform go on when the last of these is done.
mod Defs
pub mod Sent
pub mod Runs
unfoldable pub use Defs.*
