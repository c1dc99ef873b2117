-- ===== src/Lib.antt =====
-- programmable-redfish-proxy: a proxy for a Redfish BMC in which a script handles every request.
--
-- The program is Rust. A request reaches `handle` (src/proxy.rs), which chooses a script by the
-- routes of the configuration (src/config.rs) and runs it (src/rune_host.rs). The script reads and
-- changes JSON with the helpers of src/script_util.rs, keeps state between requests in the store of
-- src/script_store.rs, talks to the BMC through src/script_bmc.rs, and what it relays is rewritten
-- by src/http.rs.
--
-- What models what, with the names of the source:
-- - Prelude: text as bytes, lists, results, and the reading of a `usize`. Numbers are natural; a
--   `usize` is below 2 ^ 64, which only the reading of digits can pass.
-- - Json: `serde_json::Value`, whose `Map` is kept in the order of its keys, with `get`, `insert`,
--   `remove`, indexing and equality. Numbers are opaque: the program only compares them.
-- - Scripting: a record of what Rune and serde_json do, to turn a script's value into JSON and back
--   and JSON into bytes.
-- - JsonPatch (src/script_util.rs): Pointer is `pointer_tokens` and `array_index`; Locate is
--   `resolve` and `resolve_mut`, where a mutable reference is the value in its place and a way to
--   write another there; Edit is `patch_add`, `patch_remove`, `patch_move` and `nodes`; Apply is
--   `pointer_field`, `value_field`, `apply_one`, `apply_patch` and `json_patch`.
-- - Merge (src/script_util.rs): `merge_json` and `json_merge_patch`.
-- - DeepPath (src/script_util.rs): `walk`, `at`, `set`, `contains`, `is_enabled`, `segment` and
--   `empty_collection`.
-- - Store (src/script_store.rs): the map with its lock, every operation of the `store` module, and
--   in Store.History every sequence of calls from any number of requests. The lock makes a call one
--   step, so an interleaving of requests is a sequence of calls.
-- - Routes (src/config.rs and src/proxy.rs): `RouteConfig`, `Route`, `Router` with `build`,
--   `resolve` and `claims_path`, `ProxyError`, and `handle` with the run of the script left to its
--   argument. The globs of a crate are a parameter.
-- - Config (src/config.rs): `Config::validate`, over the parts of a configuration that it looks at,
--   `Config::parse` and `Config::load`.
-- - Http (src/http.rs): the policy on header names; Headers is the `HeaderMap` of a crate, as a record
--   of operations and one of the laws it documents, with lists of entries as an instance; Relay is
--   `copy_end_to_end`, `redact_headers`, `render_body`, `content_type` and `is_json`; Swap is
--   `scheme_start` and `swap_authorities`, where a position is the text on either side of it and a
--   slice that would panic is `none`, with Swap.Scan a reading of a text's URLs; Rewrite is
--   `is_target`, `rewrite_text` and `rewrite_value`, and Rewrite.Headers `rewrite_headers` and
--   `rewrite_response`; Body is `json_content_type`, `rewrite_json` and `truncate_body`. The target
--   is a `SocketAddrV4`, whose two ways to be printed are in Address. Url says what a URL in a text is, apart from the code.
-- - Bmc (src/script_bmc.rs): `require_absolute`, `script_may_set`, `last_segment`, `member_path`,
--   `member_ids` and `resolve_ids`; Expand is `expand_collection` and `expand_or_empty`. For these the
--   BMC is a state and what `get_json` answers in it, which may change with every request. Context is
--   `RequestCtx` and `relay_headers` of src/rune_host.rs, with the HTTP client as a record; Request is
--   `ScriptRequest`, `BmcRequest` with its methods, `inbound`, and `script_request` of
--   src/rune_host.rs; Send is `dispatch`, `send_request`, `subrequest` and `get_json`, which gives the
--   BMC of the former; Forward is `Forwarded` with its methods, `forward` and `send_forwarded`.
-- - Files (src/script_util.rs): `read_script_json`, `json_patch_file`, `read_env`, `rewrite_links` and
--   the helpers beside them; the file system and the environment are parameters.
-- - Host (src/rune_host.rs): `Scripts`, `compile_dir`, `load_for`, `ScriptStore` with `reload`, and
--   `clamp_status`, with the Rune compiler as a parameter; Collect is `collect_scripts` over a tree of
--   files; Response is `ScriptResponse`, the `resp` module, `finish_forwarded` and
--   `finish_script_response`; Run is `returned`, `execute` and `run_script`, with the Rune virtual
--   machine as a parameter.
-- - Logging (src/script_util.rs): `emit`, `event`, `log_request` and `log_response`, with the `log` of
--   both kinds of response.
-- - Proxy (src/proxy.rs): `upstream_client`, `AppState::build`, and the rendering of an error.
-- - Process (src/main.rs): the names and the source of the certificate, `run` and `main`. Sockets and the
--   serving of connections are parameters.
-- - Examples: runs at concrete inputs.
--
-- A function that changes its argument returns the changed value; an error is a constructor without
-- the wording of the message, or with it as a parameter. A call that waits takes the state of the
-- world and returns the one it leaves. The context of a request is an argument of what reads it, since
-- a handler always runs in one. Functions recurse on their data, but for the loop of
-- `swap_authorities`, which is given one more step than the text has bytes and never needs more.
--
-- Not modelled: what only calls a crate or the operating system, which are TOML, globs, regular
-- expressions, digests, base64, TLS, the accept loop and its tasks, signals, the clock, the
-- compilation of a script, and the registration of functions with Rune; and `sleep`.
pub mod Prelude
pub mod Json
pub mod JsonPatch
pub mod Scripting
pub mod Store
pub mod Merge
pub mod DeepPath
pub mod Routes
pub mod Config
pub mod Http
pub mod Bmc
pub mod Files
pub mod Host
pub mod Logging
pub mod Proxy
pub mod Process
mod Examples
