-- ===== src/Lib.antt =====
-- ohos-rs binds Rust code to the JavaScript engine of OpenHarmony. `crates/napi` is the runtime that
-- a native module links: values of the engine, errors, and functions that other threads may call.
-- `crates/macro` and `crates/backend` turn annotated Rust items into the glue code and into the
-- TypeScript declarations of the module, and `cli/cargo-ohrs` builds and packages it. These files
-- model parts of the runtime, of the declarations and of the packaging.
--
-- Files and code:
-- - Common: Boolean tests, lists, integers and texts that the models share; no code of its own. A
--   machine integer is a natural number or an integer with its bounds written out, a text is the list
--   of its code points.
-- - BigInt: crates/napi/src/bindgen_runtime/js_values/bigint.rs, each conversion a function on a sign
--   and a list of 64-bit words. BigInt.Value says which integer the words stand for; Equality, Signed,
--   Wide and RoundTrip hold the theorems; Legacy is `get_i128` and `get_u128` of
--   crates/napi/src/js_values/bigint.rs.
-- - Status: crates/napi/src/status.rs. The codes are those of crates/sys/src/types.rs.
-- - Error: crates/napi/src/error.rs. Error.Chain is an error with its causes and its conversions to
--   JavaScript, Error.Import the conversion from JavaScript, Error.Counting a reference that errors share.
-- - AsyncWork: crates/napi/src/async_work.rs, with `ScopedTask` of crates/napi/src/task.rs. AsyncWork.Signal
--   is the abort signal of crates/napi/src/bindgen_runtime/js_values/task.rs, Settling and Life say how the
--   promise of a work ends.
-- - Promise: promises between Rust and JavaScript. Promise.Deferred is crates/napi/src/js_values/deferred.rs
--   with `execute_tokio_future` of crates/napi/src/tokio_runtime.rs, Promise.Raw and Promise.Await are
--   promise_raw.rs and promise.rs of crates/napi/src/bindgen_runtime/js_values.
-- - Tsfn: crates/napi/src/threadsafe_function.rs. Handle is `ThreadsafeFunctionHandle`, `create`, `abort`
--   and `thread_finalize_cb`; Call the calls from any thread, with `CalleeHandled` (`call`, ..) and
--   without (`call_fatal`, ..); Callback is `call_js_cb`, Report `handle_call_js_cb_status`, and Life
--   the handle under every sequence of events. A call queues a box, the engine hands it to `call_js_cb`,
--   and the return callback in it answers the waiting `call_async`.
-- - Runtime: the shared runtime of crates/napi/src/tokio_runtime.rs.
-- - Iterator: crates/napi/src/bindgen_runtime/iterator.rs, with the state of the instance.
-- - ValueRef: crates/napi/src/bindgen_runtime/js_values/value_ref.rs, with the finalizer of
--   crates/napi/src/bindgen_runtime/mod.rs and `_construct` of callback_info.rs beside it; ValueRef.Life is an
--   instance under every sequence of events.
-- - Either: crates/napi/src/bindgen_runtime/js_values/either.rs.
-- - Stream: crates/napi/src/bindgen_runtime/js_values/stream/read.rs. Stream.Reader is `Reader`, and
--   Stream.Source the callbacks `pull` and `cancel` of a Rust stream.
-- - Serde: crates/napi/src/js_values/ser.rs and crates/napi/src/js_values/de.rs. Serde.Ser is the serializer on the tree
--   of the calls that a value makes, Serde.De what a visitor is given back; Expected says what that has
--   to be, and RoundTrip, Variants and Integers hold the theorems.
-- - Buffers: the typed arrays of crates/napi/src/bindgen_runtime/js_values/arraybuffer.rs and
--   crates/napi/src/bindgen_runtime/js_values/buffer.rs, with `custom_gc` of module_register.rs. Owned and
--   Borrowed are the conversions of a typed array and of a borrowed one to JavaScript, Reading the one
--   from it, Lengths its lengths, and Buffer and Slice are the two types of buffer.rs.
-- - Modules: crates/napi/src/bindgen_runtime/module_register.rs. Exports, Namespaces and Classes are about
--   what `napi_register_module_v1` defines, and Modules.Lifetime is the runtime of Runtime and the custom
--   collector over the environments of a process, with `thread_cleanup` at their end.
-- - Typegen: crates/backend/src/typegen.rs, crates/backend/src/typegen/fn.rs (`FnArgList`) and the tables
--   of crates/backend/src/lib.rs. Escape is `escape_json` and `format_js_property_name`, Template
--   `fill_ty`, Known the tables, Handlers the `handle_*` functions, ArgList the parameter lists, and
--   Types `ty_to_ts_type` with the functions that it calls.
-- - Cli: cli/cargo-ohrs/src/build/artifact.rs, parts of cli/cargo-ohrs/src/build/ts.rs and
--   cli/cargo-ohrs/src/build/prepare.rs, and cli/cargo-ohrs/src/util/arch.rs. Path is what artifact.rs
--   does with paths and names, Artifact its search `resolve_runtime_libraries_with` for the libraries
--   that a module needs, Artifact.Needed the parser of the listing that `llvm-readobj` prints, and
--   Artifact.Directories the functions that say where to search. Indent is `correct_string_indent` and
--   TypeDef `preprocess_type_def` of ts.rs, which reads the lines that the code of Typegen has
--   written. Soname is `normalize_soname` of prepare.rs, and Arch is arch.rs.
--
-- Conventions: `none` in BigInt and Typegen.Types, `panicked` and `panic` stand for a Rust panic: an
-- index out of bounds, a failed `assert!` or `unwrap`, or an overflow where overflow checks are on.
-- A pointer in Buffers is a number, and the bytes behind it are not modelled. The order of a hash map in
-- Modules is any list that has each key once.
-- The engine is not in the sources: what it answers is an argument of each operation (a status code,
-- the words of a number, the result of a call), and what it is asked for is listed in the result.
-- The engine counts the words of a number without zero words on top, which the theorems that need it
-- name as `IsTight`. The user's conversion of a payload is a function in the record `Site`, and the
-- file system and the reading of a library are functions in the record `Host`. Recursion is
-- structural, on lists, on the syntax of a type, or on the rounds of a counted loop. The search of
-- Cli.Artifact runs on fuel, one unit for each file that is taken from the queue: a file is queued
-- once for each new name, so the number of artifacts and of names is enough. The digits of a decimal
-- number run on fuel that is larger than the number. Error.Import runs on fuel, one unit for each value
-- that is converted: the code has no bound there, and the theorem says which fuel is enough.
--
-- Not modelled: the feature `deferred_trace`, `ArrayBuffer`, the slices of typed arrays and the other
-- value types of the runtime, the methods of `Env`, the generated glue code, the parser of the attributes, the declarations of structs,
-- enums and constants, the other parts of the command line tool, the raw bindings of crates/sys, the
-- examples and the tests. In Life a lock is held for the whole of an operation, so operations are
-- atomic; that a send to a channel whose receiver is gone fails is ignored there as in the code.
pub mod Common
pub mod AsyncWork
pub mod BigInt
pub mod Iterator
pub mod Modules
pub mod Promise
pub mod Runtime
pub mod Status
pub mod Either
pub mod Error
pub mod Tsfn
pub mod ValueRef
pub mod Buffers
pub mod Serde
pub mod Stream
pub mod Typegen
pub mod Cli
