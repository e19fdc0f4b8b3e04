-- ===== src/Promise.antt =====
-- Promises between Rust and JavaScript: `Deferred` is crates/napi/src/js_values/deferred.rs without the
-- feature `deferred_trace`, with `execute_tokio_future` of crates/napi/src/tokio_runtime.rs; `Raw` is
-- crates/napi/src/bindgen_runtime/js_values/promise_raw.rs, and `Await` the `Promise` of
-- crates/napi/src/bindgen_runtime/js_values/promise.rs. What the engine answers is an argument of each
-- operation, and what it is asked for is listed in the result.
pub mod Deferred
pub mod Raw
pub mod Await
mod Tests
