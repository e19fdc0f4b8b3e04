-- ===== src/Tsfn.antt =====
-- The thread-safe function of crates/napi/src/threadsafe_function.rs. `Handle` is the shared handle
-- and its creation, `Call` the calls from any thread, `Callback` the engine's call back into the
-- library on the main thread, `Report` what becomes of that call's status, and `Life` the handle
-- under every sequence of events. The engine's functions are not in the sources: each of their calls
-- is listed in the result of an operation, and what they answer is an argument of it.
pub mod Handle
pub mod Call
pub mod Callback
pub mod Report
pub mod Life
mod Tests
