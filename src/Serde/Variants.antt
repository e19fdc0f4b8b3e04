-- ===== src/Serde/Variants.antt =====
-- How `deserialize_enum` of crates/napi/src/js_values/de.rs reads the variants that
-- crates/napi/src/js_values/ser.rs writes.
use ohos_rs.Common.Text.{Text}
