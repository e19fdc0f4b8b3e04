-- ===== src/Typegen.antt =====
-- The TypeScript declarations of crates/backend/src/typegen.rs: `Escape` writes their JSON strings and
-- property names, `Template` fills the templates of `Known`, `Handlers` renders the special types,
-- `ArgList` the parameters of a function, `JsDoc` the comments, and `Types` turns a Rust type into a TypeScript one.
pub mod Escape
pub mod Template
pub mod Known
pub mod Handlers
pub mod ArgList
pub mod JsDoc
pub mod Types
mod Tests
