-- ===== src/Bmc/Send.antt =====
-- How a request of a script reaches the network: `dispatch`, `send_request`, `subrequest` and
-- `get_json` of src/script_bmc.rs. The context is that of the handler that is running, which there
-- always is when these are called.
pub mod Credentials
pub mod Helpers
use programmable_redfish_pro.Http.Address.{socket_text}
use programmable_redfish_pro.Prelude.{
  ℕ, ◌-◌, map, Bool, true, false, ◌&&◌, not, leb, ltb, Option, none, some, List, [], ◌∷◌, ◌++◌,
  Text, lit, if◌then◌else◌, Result, ok, err, map_err, ok_or, ◌>>=◌, ◌>>◌,
}
use programmable_redfish_pro.Json.{Value}
use programmable_redfish_pro.Http.Headers.{HeaderMaps}
use programmable_redfish_pro.Http.Relay.{copy_end_to_end}
use programmable_redfish_pro.Bmc.{Upstream, require_absolute, script_may_set}
use programmable_redfish_pro.Bmc.Context.{RequestCtx, Outbound, Reply, SendError, Client}
use programmable_redfish_pro.Bmc.Request.{
  CallError, refused, no_method, no_json, not_sent, not_read, bad_status, BmcRequest, Bodies,
}

-- `to_ascii_uppercase`
abbrev pub to_ascii_uppercase : Text → Text
to_ascii_uppercase s = map (λ b. if leb b'a' b && leb b b'z' then b - 32 else b) s

-- `bmc::request`
unfoldable pub new_request : (method path : Text) → Result CallError BmcRequest
unfolding require_absolute
new_request method path = do
  absolute ← map_err refused (require_absolute path)
  ok (record {
    method = to_ascii_uppercase method;
    path = path;
    body = none;
    content_type = none;
    headers = [];
  })

-- `200..300`
abbrev pub is_success : ℕ → Bool
is_success status = leb 200 status && ltb status 300

abbrev pub or_json : Option Text → Text
unfolding lit
or_json (some content_type) = content_type
or_json none = lit "application/json"

module _ (http : HeaderMaps) where
  open http use {HeaderMap, HeaderValue, from_str, from_bytes, new, append, insert, iter}

  -- The loop over the script's headers.
  unfoldable pub add_header : Text → Text → HeaderMap → HeaderMap
  unfolding script_may_set
  add_header name value headers =
      if not (script_may_set name) then headers else elim (from_bytes name) [
        | none ↦ headers
        | some n ↦ elim (from_str value) [ none ↦ headers | some v ↦ append headers n v ]
      ]

  unfoldable pub add_headers : List (Text × Text) → HeaderMap → HeaderMap
  unfolding add_header
  add_headers [] headers = headers
  add_headers ((name, value) ∷ more) headers = add_headers more (add_header name value headers)

  -- The loop over the relayed headers.
  unfoldable pub insert_each : List (Text × HeaderValue) → HeaderMap → HeaderMap
  insert_each [] headers = headers
  insert_each ((name, value) ∷ entries) headers = insert_each entries (insert headers name value)

  unfoldable pub declare_body : Option Text → Option Text → HeaderMap → HeaderMap
  unfolding lit
  declare_body none content_type headers = headers
  declare_body (some body) content_type headers = elim (from_str (or_json content_type)) [
    | some value ↦ insert headers (lit "content-type") value
    | none ↦ headers
  ]

  -- The headers that `dispatch` sends.
  unfoldable pub outbound_headers : RequestCtx http → BmcRequest → HeaderMap
  unfolding add_headers insert_each declare_body
  outbound_headers ctx request =
      declare_body request.body request.content_type
        (insert_each (iter ctx.relay_headers) (add_headers request.headers new))

  module _ (client : Client http) where
    open client use {World, Stream, parse_method, send, bytes}

    -- What `dispatch` does before it sends anything.
    unfoldable pub prepare : RequestCtx http → BmcRequest → Result CallError (Outbound http)
    unfolding require_absolute outbound_headers lit
    prepare ctx request = do
      absolute ← map_err refused (require_absolute request.path)
      method ← ok_or (no_method request.method) (parse_method request.method)
      ok (record {
        method = method;
        url = lit "https://" ++ (socket_text ctx.target ++ request.path);
        headers = outbound_headers ctx request;
        body = request.body;
      })

    abbrev pub sent_or :
        Result (SendError) (Reply http Stream) → Result CallError (Reply http Stream)
    sent_or (ok reply) = ok reply
    sent_or (err error) = err (not_sent error.message)

    unfoldable pub dispatch :
        RequestCtx http → BmcRequest → World → Result CallError (Reply http Stream) × World
    unfolding prepare
    dispatch ctx request w = elim (prepare ctx request) [
      | err error ↦ (err error, w)
      | ok outbound ↦ let (answer, w') = send outbound w in (sent_or answer, w')
    ]

    pub record BmcResponse : Type 0 where
      pub status : ℕ
      pub headers : HeaderMap
      pub body : Text

    unfoldable pub read_whole : Reply http Stream → World → Result CallError BmcResponse × World
    unfolding copy_end_to_end
    read_whole reply w =
        let (body, w') = bytes reply.body w in
        elim body [
          | err error ↦ (err (not_read error), w')
          | ok whole ↦ (
            ok (record {
              status = reply.status;
              headers = copy_end_to_end http reply.headers new;
              body = whole;
            }),
            w',
          )
        ]

    unfoldable pub send_request :
        RequestCtx http → BmcRequest → World → Result CallError BmcResponse × World
    unfolding dispatch read_whole
    send_request ctx request w =
        let (answer, w') = dispatch ctx request w in
        elim answer [ err error ↦ (err error, w') | ok reply ↦ read_whole reply w' ]

    unfoldable pub subrequest :
        RequestCtx http
        → (method path : Text) → (body : Option Text) → World
        → Result CallError BmcResponse × World
    unfolding send_request lit
    subrequest ctx method path body w =
        send_request ctx
          (record {
            method = method;
            path = path;
            body = body;
            content_type = some (lit "application/json");
            headers = [];
          })
          w

    -- `bmc::post`, `bmc::patch` and `bmc::put`.
    unfoldable pub send_json :
        (bodies : Bodies)
        → RequestCtx http
        → (method path : Text) → bodies.Script
        → World
        → Result CallError BmcResponse × World
    unfolding subrequest
    send_json bodies ctx method path value w = elim (bodies.to_vec value) [
      | err error ↦ (err (no_json error), w)
      | ok encoded ↦ subrequest ctx method path (some encoded) w
    ]

    -- The answer of `get_json`, from the response and the parser of `serde_json`.
    unfoldable pub parsed :
        (from_slice : Text → Result Text Value)
        → (path : Text) → BmcResponse
        → Result CallError Value
    parsed from_slice path response =
        if not (is_success response.status)
        then err (bad_status path response.status)
        else map_err no_json (from_slice response.body)

    unfoldable pub get_json :
        (from_slice : Text → Result Text Value)
        → RequestCtx http
        → (path : Text) → World
        → Result CallError Value × World
    unfolding subrequest parsed lit
    get_json from_slice ctx path w =
        let (answer, w') = subrequest ctx (lit "GET") path none w in
        (answer >>= parsed from_slice path, w')

    -- The BMC as the helpers on top of `get_json` see it; `message` is the wording of an error.
    unfoldable pub upstream :
        (from_slice : Text → Result Text Value)
        → (message : CallError → Text) → RequestCtx http
        → Upstream
    unfolding get_json
    upstream from_slice message ctx = record {
      World = World;
      get_json = λ path w.
          let (answer, w') = get_json from_slice ctx path w in (map_err message answer, w');
    }
