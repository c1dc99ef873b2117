-- ===== src/Logging/Credentials.antt =====
-- What the log can tell of a credential.
use programmable_redfish_pro.Prelude.{◌≡◌, refl, Bool, Text}
use programmable_redfish_pro.Http.Headers.{HeaderMaps}
use programmable_redfish_pro.Http.Relay.Credentials.{Alike, redact_headers-Alike}
use programmable_redfish_pro.Bmc.Context.{RequestCtx}
use programmable_redfish_pro.Bmc.Forward.{Forwarded}
use programmable_redfish_pro.Logging.{log_request, log_response, log_forwarded}

module _ (http : HeaderMaps) where
  open http use {iter}

  -- The record of a request and that of a forwarded response do not depend on the value of any
  -- credential among their headers.
  pub log_request-Alike :
      (ctx other : RequestCtx http) {Stream : Type 0} (reply other_reply : Forwarded http Stream)
      (level : Text) (with_body : Bool)
      → Alike http (iter ctx.parts.headers) (iter other.parts.headers)
      → ctx.parts.method ≡ other.parts.method
      → ctx.parts.path ≡ other.parts.path
      → ctx.target ≡ other.target
      → ctx.body ≡ other.body
      → Alike http (iter reply.headers) (iter other_reply.headers)
      → reply.status ≡ other_reply.status
      → reply.body ≡ other_reply.body
      → (log_request http ctx level with_body ≡ log_request http other level with_body)
        × (log_forwarded http ctx reply level with_body
            ≡ log_forwarded http other other_reply level with_body)
  unfolding log_request log_forwarded log_response
  log_request-Alike ctx other reply other_reply level with_body alike method path target body alike'
        status body' =
      (
        rw
            (
              redact_headers-Alike http ctx.parts.headers other.parts.headers alike,
              method,
              path,
              target,
              body,
            )
            refl,
        rw
            (
              redact_headers-Alike http reply.headers other_reply.headers alike',
              status,
              body',
              target,
            )
            refl,
      )
