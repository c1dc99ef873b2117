-- ===== src/Host/Response.antt =====
-- The responses that a handler builds or forwards, and what the caller gets of them: `ScriptResponse`,
-- the `resp` module, `finish_forwarded` and `finish_script_response` of src/rune_host.rs.
pub mod Finished
use programmable_redfish_pro.Prelude.{
  ℕ, Bool, true, false, ◌&&◌, ◌||◌, not, any, leb, Option, none, some, List, [], ◌∷◌, ◌++◌, Text,
  lit, text_eq, length, if◌then◌else◌, Result, ok, err,
}
use programmable_redfish_pro.DeepPath.{ℤ}
use programmable_redfish_pro.Json.{Value}
use programmable_redfish_pro.Http.{is_hop_by_hop}
use programmable_redfish_pro.Http.Body.{Codec}
use programmable_redfish_pro.Http.Headers.{HeaderMaps}
use programmable_redfish_pro.Http.Relay.{script_forbidden_headers}
use programmable_redfish_pro.Http.Rewrite.Headers.{rewrite_response}
use programmable_redfish_pro.Bmc.Request.{CallError, not_rewritten, Bodies}
use programmable_redfish_pro.Bmc.Context.{RequestCtx, Client}
use programmable_redfish_pro.Bmc.Forward.{
  ForwardedBody, buffered, streaming, Forwarded, failure_json, or_same,
}
use programmable_redfish_pro.Host.{clamp_status}

pub record ScriptResponse : Type 0 where
  pub status : ℕ
  pub content_type : Text
  pub body : Text
  pub headers : List (Text × Text)

unfoldable pub with_header : ScriptResponse → (name value : Text) → ScriptResponse
with_header script name value = record script { headers = script.headers ++ (name, value) ∷ [] }

-- `resp::json`; `encode` is `serde_json::to_vec` of a document.
unfoldable pub resp_json :
    (http : HeaderMaps) (bodies : Bodies)
    → (encode : Value → Result Text Text) → ℤ
    → bodies.Script
    → ScriptResponse
unfolding clamp_status lit
resp_json http bodies encode status value = elim (bodies.to_vec value) [
  | ok body ↦ record {
    status = clamp_status status;
    content_type = lit "application/json";
    body = body;
    headers = [];
  }
  | err error ↦
      let message = lit "script value is not serialisable as JSON: " ++ error in
      record {
        status = 500;
        content_type = lit "application/json";
        body = elim (encode (failure_json http message)) [ ok body ↦ body | err e ↦ lit "{}" ];
        headers = [];
      }
]

unfoldable pub resp_text : ℤ → Text → ScriptResponse
unfolding clamp_status lit
resp_text status body = record {
  status = clamp_status status;
  content_type = lit "text/plain; charset=utf-8";
  body = body;
  headers = [];
}

unfoldable pub resp_status : ℤ → ScriptResponse
unfolding clamp_status lit
resp_status status = record {
  status = clamp_status status;
  content_type = lit "application/json";
  body = [];
  headers = [];
}

-- `StatusCode::from_u16(..).unwrap_or(INTERNAL_SERVER_ERROR)`, of three digits.
abbrev pub status_code : ℕ → ℕ
status_code status = if leb 100 status && leb status 999 then status else 500

unfoldable pub is_forbidden : Text → Bool
unfolding is_hop_by_hop
is_forbidden name = any (λ f. text_eq f name) script_forbidden_headers || is_hop_by_hop name

module _ (http : HeaderMaps) where
  open http use {
    HeaderMap, HeaderValue, to_str, from_str, from_bytes, from_usize, new, append, insert, remove,
    iter,
  }

  -- What the caller gets.
  pub record Response (Stream : Type 0) : Type 0 where
    pub status : ℕ
    pub headers : HeaderMap
    pub body : ForwardedBody Stream

  unfoldable pub type_header : Text → HeaderMap
  unfolding lit
  type_header content_type = elim (from_str content_type) [
    | some value ↦ insert new (lit "content-type") value
    | none ↦ new
  ]

  -- The loop of `ScriptResponse::rewrite` over the script's headers.
  unfoldable pub append_valid : List (Text × Text) → HeaderMap → HeaderMap
  append_valid [] headers = headers
  append_valid ((name, value) ∷ more) headers = append_valid more (elim (from_bytes name) [
    | none ↦ headers
    | some n ↦ elim (from_str value) [ some v ↦ append headers n v | none ↦ headers ]
  ])

  unfoldable pub readable : List (Text × HeaderValue) → List (Text × Text)
  unfolding lit
  readable [] = []
  readable ((name, value) ∷ entries) =
      let rest = readable entries in
      if not (text_eq name (lit "content-type"))
      then elim (to_str value) [ some s ↦ (name, s) ∷ rest | none ↦ rest ]
      else rest

  unfoldable pub rewrite_script :
      Codec → RequestCtx http → ScriptResponse → Result CallError ScriptResponse
  unfolding type_header append_valid readable rewrite_response
  rewrite_script codec ctx script =
      elim (rewrite_response http ctx.target ctx.base codec
        (append_valid script.headers (type_header script.content_type)) script.body) [
          | ok (headers, new_body) ↦ ok (record script {
            body = elim new_body [ some rewritten ↦ rewritten | none ↦ script.body ];
            headers = readable (iter headers);
          })
          | err error ↦ err not_rewritten
        ]

  unfoldable pub finish_forwarded : {Stream : Type 0} → Forwarded http Stream → Response Stream
  unfolding lit
  finish_forwarded forwarded = elim forwarded.body [
    | buffered whole ↦ record {
      status = status_code forwarded.status;
      headers =
          insert (remove forwarded.headers (lit "content-length")) (lit "content-length")
            (from_usize (length whole));
      body = buffered whole;
    }
    | streaming response ↦ record {
      status = status_code forwarded.status;
      headers = forwarded.headers;
      body = streaming response;
    }
  ]

  -- The step of the loop of `finish_script_response`.
  unfoldable pub add_allowed : Text → Text → HeaderMap → HeaderMap
  unfolding is_forbidden
  add_allowed name value headers = elim (from_bytes name) [
    | none ↦ headers
    | some n ↦
        if is_forbidden n
        then headers
        else elim (from_str value) [ some v ↦ append headers n v | none ↦ headers ]
  ]

  unfoldable pub append_allowed : List (Text × Text) → HeaderMap → HeaderMap
  unfolding add_allowed
  append_allowed [] headers = headers
  append_allowed ((name, value) ∷ more) headers =
      append_allowed more (add_allowed name value headers)

  unfoldable pub finish_script_response : {Stream : Type 0} → ScriptResponse → Response Stream
  unfolding type_header append_allowed lit
  finish_script_response script = record {
    status = status_code script.status;
    headers =
        insert (append_allowed script.headers (type_header script.content_type))
          (lit "content-length") (from_usize (length script.body));
    body = buffered script.body;
  }
