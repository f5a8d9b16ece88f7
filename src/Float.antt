-- ===== src/Float.antt =====
-- Python's `float`, as the program uses it: an interface of operations, and the laws that correctly
-- rounded IEEE arithmetic has on finite values (every operation rounds a monotone exact result), with
-- -0.0 and 0.0 taken as one value. NaN and infinities are outside the model. The int values that meet
-- floats in the source are floats here too. `Fixed` is an instance that computes.
pub mod FixedOrder
mod Defs
pub mod Order
pub mod Fixed
pub use Defs.*
pub mod FixedLaws
