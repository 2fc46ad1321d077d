-- ===== src/World.antt =====
-- What the hub runs in: the configuration, the outside (the RPC endpoint, the chain's other users,
-- the database, the clock, random bytes, and the cryptographic and ABI functions of libraries) as
-- parameters, the mutable state, and the monad of its asynchronous methods.
--
-- The outside is read by a counter of the calls made so far, `tick`: `net t` is what the endpoint does
-- with the call that is made at `t`, `others t` are the transactions of anybody that are mined before it.
mod State
pub mod Monad
pub mod Laws
pub mod Reaching
pub mod Runs
pub use State.*
unfoldable pub use Monad.*
