-- ===== src/Validator/Assemblies.antt =====
-- validator/AssemblyConfigurationValidator.ts
mod Defs
pub mod Rules
unfoldable pub use Defs.*
