-- ===== src/Model.antt =====
-- model/: the types of the data that the panel and the platform exchange. A field that may be
-- absent is an `Option`, a `Buffer` the list of its bytes, a number an id, a count or a port.
pub mod States
pub mod Resources
pub mod Modules
pub mod Assemblies
pub mod Projects
