-- ===== src/Service.antt =====
-- service/, constants/ModuleStateConstants.ts: what the panel knows about modules and assemblies,
-- and the services that install, update and clone a module.
pub mod ModuleService
pub mod ModuleStates
pub mod Installation
pub mod Updating
pub mod Cloning
