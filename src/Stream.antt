-- ===== src/Stream.antt =====
-- Streams between Rust and JavaScript in
-- crates/napi/src/bindgen_runtime/js_values/stream/read.rs. `Reader` is a JavaScript stream that Rust
-- reads, `Source` a Rust stream that JavaScript pulls.
pub mod Reader
pub mod Source
mod Tests
