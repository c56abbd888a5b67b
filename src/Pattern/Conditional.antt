-- ===== src/Pattern/Conditional.antt =====
-- framework/pattern/Conditional.ts and framework/pattern/Optional.ts: which widget is drawn, and
-- when a new one is made. `E` is what a factory reads when it is called, `W` are the widgets, `C`
-- the values of the cache function (`undefined` is `none`), `S` the stubs. What the predicate and
-- the cache function say at a draw is given to the draw.
mod Defs
pub mod Drawing
pub mod Spawning
unfoldable pub use Defs.*
