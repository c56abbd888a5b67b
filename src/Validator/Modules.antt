-- ===== src/Validator/Modules.antt =====
-- validator/ModuleConfigurationValidator.ts. The matches of a text with ENTITY_NAME_REGEX, URL_REGEX
-- and the regular expression of the names of configuration files are those of the language, and
-- parameters.
mod Defs
pub mod Rules
unfoldable pub use Defs.*
