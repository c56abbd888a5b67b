-- ===== src/Pattern.antt =====
-- framework/pattern: the building blocks that the widgets and the services share.
pub mod Stream
pub mod Synchronizer
pub mod Property
pub mod Conditional
pub mod Hooks
pub mod Caches
pub mod Configurable
