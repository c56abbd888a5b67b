-- ===== src/Extensions.antt =====
-- framework/extensions/extensions.ts: the methods that the panel adds to `Map`, `Set` and `Array`,
-- and the functions beside them.
pub mod Maps
pub mod Grouping
pub mod Arrays
pub mod Duplicates
pub mod Ranges
