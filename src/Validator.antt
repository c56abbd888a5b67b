-- ===== src/Validator.antt =====
-- validator/: the tests that the pages make of a configuration before it is sent.
pub mod Assemblies
pub mod Modules
