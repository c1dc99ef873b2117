-- ===== src/Json.antt =====
-- JSON documents as the program holds them: the `serde_json::Value` whose constructors
-- src/script_util.rs and src/http.rs match on. A `Map` is a `BTreeMap`, so its keys are kept in
-- order, and equality of values is equality of their parts. The program never computes with a
-- number: it only compares one, so a number is known by an index.
mod Defs
mod Laws
mod Equality
pub mod Order
unfoldable pub use Defs.*
pub use Laws.*
pub use Equality.*
unfoldable pub use Order.*
