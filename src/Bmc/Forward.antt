-- ===== src/Bmc/Forward.antt =====
-- Responses of the BMC as a handler holds them: `BmcResponse`, `Forwarded`, `forward`,
-- `send_forwarded`, `buffer` and `rewrite` of src/script_bmc.rs. What a handler logs of one is in
-- Logging.
pub mod Outcome
pub mod Leak
pub mod Rewritten
pub mod Hidden
use programmable_redfish_pro.Http.Address.{socket_text}
use programmable_redfish_pro.Prelude.{
  ℕ, Bool, true, false, ◌&&◌, not, leb, ltb, Option, none, some, List, [], ◌∷◌, ◌++◌, Text, lit,
  if◌then◌else◌, Result, ok, err, map_err, ◌>>=◌,
}
use programmable_redfish_pro.Prelude.Optional.{◌>>=◌ as and_then}
use programmable_redfish_pro.Json.{Value, str, obj, end, field}
use programmable_redfish_pro.Http.{is_redacted}
use programmable_redfish_pro.Http.Body.{Codec}
use programmable_redfish_pro.Http.Headers.{HeaderMaps}
use programmable_redfish_pro.Http.Relay.{copy_end_to_end, is_json, content_type}
use programmable_redfish_pro.Http.Rewrite.Headers.{rewrite_headers, rewrite_response}
use programmable_redfish_pro.Bmc.Context.{Parts, RequestCtx, Outbound, Reply, SendError, Client}
use programmable_redfish_pro.Bmc.Request.{
  CallError, not_read, not_rewritten, still_streaming, BmcRequest, Bodies, body_json, body_text,
  with_query,
}
use programmable_redfish_pro.Bmc.Send.{is_success, dispatch}

pub data ForwardedBody (Stream : Type 0) : Type 0 where
  buffered : Text → ForwardedBody Stream
  streaming : Stream → ForwardedBody Stream

abbrev pub is_streaming : {Stream : Type 0} → ForwardedBody Stream → Bool
is_streaming (buffered bytes) = false
is_streaming (streaming response) = true

module _ (http : HeaderMaps) where
  open http use {HeaderMap, HeaderValue, to_str, from_static, new, insert, get}

  unfoldable pub readable_header : HeaderMap → Text → Option Text
  readable_header headers name =
      if is_redacted name then none else (and_then (get headers name) to_str)

  pub record Forwarded (Stream : Type 0) : Type 0 where
    pub status : ℕ
    pub headers : HeaderMap
    pub body : ForwardedBody Stream

  -- The body of a failure, and how `serde_json` prints it.
  abbrev pub failure_json : (message : Text) → Value
  unfolding lit
  failure_json message = obj (
      field (lit "error")
        (obj (
          field (lit "code") (str (lit "Base.1.0.GeneralError"))
            (field (lit "message") (str message) end)))
        end)

  unfoldable pub gateway_failure :
      {Stream : Type 0}
      → (print : Value → Text) → (status : ℕ) → (message : Text) → Forwarded Stream
  unfolding lit
  gateway_failure print status message = record {
    status = status;
    headers = insert new (lit "content-type") (from_static (lit "application/json"));
    body = buffered (print (failure_json message));
  }

  module _ (client : Client http) where
    open client use {World, Stream, send, bytes}

    unfoldable pub into_forwarded :
        Reply http Stream → World → Result CallError (Forwarded Stream) × World
    unfolding copy_end_to_end is_json
    into_forwarded reply w =
        let headers = copy_end_to_end http reply.headers new in
        let (read, w') = bytes reply.body w in
        if is_json http headers
        then elim read [
          | ok whole ↦
              (ok (record { status = reply.status; headers = headers; body = buffered whole }), w')
          | err error ↦ (err (not_read error), w')
        ]
        else (
          ok (record { status = reply.status; headers = headers; body = streaming reply.body }),
          w,
        )

    unfoldable pub forward_request : RequestCtx http → Outbound http
    unfolding copy_end_to_end lit
    forward_request ctx = record {
      method = ctx.parts.method;
      url =
          lit "https://"
          ++ (socket_text ctx.target ++ with_query http ctx.parts.path ctx.parts.query);
      headers = copy_end_to_end http ctx.parts.headers new;
      body = some ctx.body;
    }

    abbrev pub failure_status : SendError → ℕ
    failure_status error = if error.is_timeout then 504 else 502

    unfoldable pub forward :
        (print : Value → Text)
        → RequestCtx http
        → World
        → Result CallError (Forwarded Stream) × World
    unfolding forward_request into_forwarded gateway_failure lit
    forward print ctx w =
        let (answer, w') = send (forward_request ctx) w in
        elim answer [
          | ok reply ↦ into_forwarded reply w'
          | err error ↦ (
            ok (
                gateway_failure print (failure_status error)
                  (lit "forwarding " ++ (ctx.parts.path ++ (lit ": " ++ error.message)))),
            w',
          )
        ]

    unfoldable pub send_forwarded :
        RequestCtx http → BmcRequest → World → Result CallError (Forwarded Stream) × World
    unfolding dispatch into_forwarded
    send_forwarded ctx request w =
        let (answer, w') = dispatch http client ctx request w in
        elim answer [ ok reply ↦ into_forwarded reply w' | err error ↦ (err error, w') ]

    unfoldable pub buffer : Forwarded Stream → World → Result CallError (Forwarded Stream) × World
    buffer forwarded w = elim forwarded.body [
      | buffered whole ↦ (ok forwarded, w)
      | streaming response ↦
          let (read, w') = bytes response w in
          elim read [
            | ok whole ↦ (ok (record forwarded { body = buffered whole }), w')
            | err error ↦ (err (not_read error), w')
          ]
    ]

    unfoldable pub json_of : (bodies : Bodies) → Forwarded Stream → Result CallError bodies.Script
    json_of bodies forwarded = elim forwarded.body [
      | buffered whole ↦ body_json bodies whole
      | streaming response ↦ err still_streaming
    ]

    unfoldable pub text_of : Forwarded Stream → Result CallError Text
    text_of forwarded = elim forwarded.body [
      | buffered whole ↦ body_text whole
      | streaming response ↦ err still_streaming
    ]

    abbrev pub or_same : Option Text → Text → Text
    or_same (some rewritten) whole = rewritten
    or_same none whole = whole

    -- A panic of the rewrite, which never happens, is an error here too.
    unfoldable pub rewrite :
        Codec → RequestCtx http → Forwarded Stream → Result CallError (Forwarded Stream)
    unfolding rewrite_response rewrite_headers
    rewrite codec ctx forwarded = elim forwarded.body [
      | buffered whole ↦
          elim (rewrite_response http ctx.target ctx.base codec forwarded.headers whole) [
            | ok (headers, new_body) ↦
                ok
                  (record forwarded { headers = headers; body = buffered (or_same new_body whole) })
            | err error ↦ err not_rewritten
          ]
      | streaming response ↦ elim (rewrite_headers http ctx.target ctx.base forwarded.headers) [
        | some headers ↦ ok (record forwarded { headers = headers })
        | none ↦ err not_rewritten
      ]
    ]
