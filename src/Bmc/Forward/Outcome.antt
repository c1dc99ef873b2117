-- ===== src/Bmc/Forward/Outcome.antt =====
-- How a response is held, and what a failure to reach the BMC becomes.
use programmable_redfish_pro.Prelude.{
  ◌≡◌, refl, ◌∙◌, true, not, Bool-cases, inl, inr, some, text_eq, Text, lit, Result, ok, err,
  Result-cases,
}
use programmable_redfish_pro.Json.{Value}
use programmable_redfish_pro.Http.Body.{json_content_type}
use programmable_redfish_pro.Http.Headers.{HeaderMaps, IsLawful}
use programmable_redfish_pro.Http.Headers.Copied.{kept}
use programmable_redfish_pro.Http.Relay.{is_end_to_end, copy_end_to_end, is_json, content_type}
use programmable_redfish_pro.Http.Relay.Credentials.{get_all-copy_end_to_end}
use programmable_redfish_pro.Bmc.Context.{RequestCtx, Client, Reply}
use programmable_redfish_pro.Bmc.Request.{CallError, not_read}
use programmable_redfish_pro.Bmc.Forward.{
  is_streaming, Forwarded, gateway_failure, into_forwarded, forward_request, forward,
}

json_declared : json_content_type (some (lit "application/json")) ≡ true
unfolding json_content_type lit text_eq
json_declared = refl

module _ (http : HeaderMaps) (lawful : IsLawful http) where
  open http use {HeaderMap, to_str, from_static, new, insert, get, get_all}

  is_json-static :
      is_json http (insert new (lit "content-type") (from_static (lit "application/json"))) ≡ true
  unfolding is_json content_type lit text_eq
  is_json-static =
      rw
        (
          lawful.get-get_all _ (lit "content-type"),
          lawful.get_all-insert new (lit "content-type") (from_static (lit "application/json"))
              (lit "content-type"),
          lawful.to_str-from_static,
        )
        json_declared

  module _ (client : Client http) where
    open client use {World, Stream, send, bytes}

    -- A response is held whole exactly when it declares JSON.
    abbrev pub Classified : Forwarded http Stream → Type 0
    Classified forwarded = is_streaming forwarded.body ≡ not (is_json http forwarded.headers)

    -- What `forward` may answer: a response that is so held, or that its body could not be read.
    abbrev pub Answered : Result CallError (Forwarded http Stream) → Type 0
    Answered (ok forwarded) = Classified forwarded
    Answered (err error) = (message : Text) × (error ≡ not_read message)

    into_forwarded-Answered :
        (reply : Reply http Stream) (w : World) → Answered (into_forwarded http client reply w).0
    unfolding into_forwarded
    into_forwarded-Answered reply w =
        let headers = copy_end_to_end http reply.headers new in
        elim (Bool-cases (is_json http headers)) [
          | inr other ↦ rw (into_forwarded, other, other) refl
          | inl declared ↦ elim (Result-cases (bytes reply.body w).0) [
            | inl (whole, read) ↦ rw (into_forwarded, declared, read, declared) refl
            | inr (error, failed) ↦ rw (into_forwarded, declared, failed) (error, refl)
          ]
        ]

    -- Relaying a request gives a response whose body is held whole exactly when it declares JSON,
    -- also where the BMC could not be reached; it fails only where a body could not be read.
    pub forward-Answered :
        (print : Value → Text) (ctx : RequestCtx http) (w : World)
        → Answered (forward http client print ctx w).0
    unfolding forward gateway_failure
    forward-Answered print ctx w =
        elim (Result-cases (send (forward_request http client ctx) w).0) [
          | inl (reply, reached) ↦
              rw (forward, reached)
                (into_forwarded-Answered reply (send (forward_request http client ctx) w).1)
          | inr (error, failed) ↦ rw (forward, failed, is_json-static) refl
        ]

  -- A relayed request carries exactly the end-to-end headers of the one that the proxy was asked,
  -- credentials included, each with all its values in their order.
  pub forward_request_lem :
      (client : Client http) (ctx : RequestCtx http) (name : Text)
      → get_all (forward_request http client ctx).headers name
        ≡ kept (is_end_to_end name) (get_all ctx.parts.headers name)
  unfolding forward_request
  forward_request_lem client ctx name =
      get_all-copy_end_to_end http lawful ctx.parts.headers new name
      ∙ rw (lawful.get_all-new name) refl
