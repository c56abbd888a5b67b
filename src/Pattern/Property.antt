-- ===== src/Pattern/Property.antt =====
-- framework/pattern/Property.ts: a value that tells its consumers when it changes, and that
-- guards can refuse. `undefined` is `none`. `clone` is the identity on the values of the model,
-- which nothing changes in place; consumers are names, and a method returns the calls it makes.
mod Defs
pub mod Changes
unfoldable pub use Defs.*
