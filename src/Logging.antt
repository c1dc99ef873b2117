-- ===== src/Logging.antt =====
-- What a script writes to the log: `emit!`, `event`, `log_request` and `log_response` of
-- src/script_util.rs, with the `log` of a response of src/script_bmc.rs and src/rune_host.rs. A record
-- is a value, and `tracing`, which writes it out, is not modelled.
pub mod Credentials
use programmable_redfish_pro.Http.Address.{SocketAddrV4}
use programmable_redfish_pro.Prelude.{
  ℕ, Bool, true, false, Option, none, some, List, [], ◌∷◌, Text, lit, text_eq, any, if◌then◌else◌,
  Result, ok, err, map_err, ◌>>=◌,
}
use programmable_redfish_pro.Prelude.Optional.{◌>>=◌ as and_then}
use programmable_redfish_pro.Http.Headers.{HeaderMaps}
use programmable_redfish_pro.Http.Relay.{redact_headers, render_body}
use programmable_redfish_pro.Bmc.Context.{Parts, RequestCtx}
use programmable_redfish_pro.Bmc.Forward.{ForwardedBody, buffered, streaming, Forwarded}
use programmable_redfish_pro.Host.Response.{ScriptResponse, type_header}

-- A body as it is rendered: its front, and how many bytes were left out, if any were.
abbrev pub Rendered : Type 0
Rendered = Text × Option ℕ

pub data Record : Type 0 where
  of_script : (message fields : Text) → Record
  of_request :
      (method path : Text)
      → (target : SocketAddrV4) → (headers : List (Text × Text)) → (body : Option Rendered) → Record
  of_response :
      (status : ℕ)
      → (target : SocketAddrV4) → (headers : List (Text × Text)) → (body : Option Rendered) → Record

pub data LogError : Type 0 where
  no_level : Text → LogError
  not_serialisable : Text → LogError

abbrev pub levels : List Text
unfolding lit
levels = lit "trace" ∷ lit "debug" ∷ lit "info" ∷ lit "warn" ∷ lit "error" ∷ []

-- What is emitted, at which level.
unfoldable pub emit : (level : Text) → Record → Result LogError (Text × Record)
emit level entry =
    if any (λ known. text_eq level known) levels then ok (level, entry) else err (no_level level)

-- `to_string` is that of `serde_json` on the fields.
unfoldable pub event :
    {Script : Type 0}
    → (to_string : Script → Result Text Text) → (level message : Text) → (fields : Script)
    → Result LogError (Text × Record)
unfolding emit
event to_string level message fields = do
  rendered ← map_err not_serialisable (to_string fields)
  emit level (of_script message rendered)

abbrev pub when : Bool → Text → Option Text
when true body = some body
when false body = none

module _ (http : HeaderMaps) where
  open http use {HeaderMap}

  unfoldable pub log_request :
      RequestCtx http → (level : Text) → (with_body : Bool) → Result LogError (Text × Record)
  unfolding emit redact_headers render_body
  log_request ctx level with_body =
      let body = and_then (when with_body ctx.body) render_body in
      emit level (
        of_request ctx.parts.method ctx.parts.path ctx.target
          (redact_headers http ctx.parts.headers) body)

  unfoldable pub log_response :
      (level : Text)
      → (status : ℕ) → (target : SocketAddrV4) → HeaderMap
      → (body : Option Text) → Result LogError (Text × Record)
  unfolding emit redact_headers render_body
  log_response level status target headers body =
      emit level
        (of_response status target (redact_headers http headers) (and_then body render_body))

  abbrev pub body_to_log : {Stream : Type 0} → ForwardedBody Stream → Bool → Option Text
  body_to_log (buffered bytes) true = some bytes
  body_to_log _ _ = none

  unfoldable pub log_forwarded :
      {Stream : Type 0}
      → RequestCtx http
      → Forwarded http Stream
      → (level : Text) → (with_body : Bool) → Result LogError (Text × Record)
  unfolding log_response
  log_forwarded ctx forwarded level with_body =
      log_response level forwarded.status ctx.target forwarded.headers
        (body_to_log forwarded.body with_body)

  unfoldable pub log_script :
      RequestCtx http
      → ScriptResponse
      → (level : Text) → (with_body : Bool) → Result LogError (Text × Record)
  unfolding log_response type_header
  log_script ctx script level with_body =
      log_response level script.status ctx.target (type_header http script.content_type)
        (when with_body script.body)
