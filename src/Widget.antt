-- ===== src/Widget.antt =====
-- framework/dsl/managed: the state that widgets keep, without their rendering.
pub mod Collection
pub mod Files
pub mod Selector
pub mod Searcher
pub mod Grid
pub mod TextField
