-- ===== src/Card.antt =====
-- component/embeddable: the cards of modules and of assemblies.
pub mod Modules
pub mod Assemblies
