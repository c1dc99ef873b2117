-- ===== src/JsonPatch.antt =====
-- JSON Patch (RFC 6902) over JSON pointers (RFC 6901): the part of src/script_util.rs from
-- `pointer_tokens` to `apply_patch`.
pub mod Pointer
pub mod Locate
pub mod Edit
pub mod Apply
