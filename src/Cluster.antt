-- ===== src/Cluster.antt =====
-- The world that the operators run in: an environment that answers calls, the trace of the calls
-- made, and the monad of Go functions over it, which may panic.
pub mod Files
pub mod Calls
pub mod Trace
pub mod Within
pub mod Written
pub mod Fails
pub mod Pushing
pub mod Sample
mod Monad
pub use Files.*
pub use Calls.*
unfoldable pub use Monad.*
