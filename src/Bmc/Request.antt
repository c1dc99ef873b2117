-- ===== src/Bmc/Request.antt =====
-- `ScriptRequest`, what a handler is given, and `BmcRequest`, what it builds: src/script_bmc.rs, and
-- `script_request` of src/rune_host.rs.
pub mod Hidden
-- pub mod Built
use programmable_redfish_pro.Prelude.{
  ℕ, Bool, true, false, ◌&&◌, not, Option, none, some, List, [], ◌∷◌, ◌++◌, Text, lit, text_eq,
  text_lt, is_empty, is_utf8, if◌then◌else◌, Result, ok, err, map_err, ok_or, ◌>>=◌, ◌>>◌,
}
use programmable_redfish_pro.DeepPath.{to_ascii_lowercase}
use programmable_redfish_pro.Http.{is_redacted}
use programmable_redfish_pro.Http.Body.{json_content_type}
use programmable_redfish_pro.Http.Headers.{HeaderMaps}
use programmable_redfish_pro.Http.Relay.{content_type}
use programmable_redfish_pro.Bmc.{BmcError, require_absolute, script_may_set}
use programmable_redfish_pro.Bmc.Context.{Parts, RequestCtx}

-- What the helpers of a request or a response fail with.
pub data CallError : Type 0 where
  refused : BmcError → CallError
  no_method no_json no_base64 : Text → CallError
  no_utf8 still_streaming : CallError
  header_refused : Text → CallError
  not_sent not_read : Text → CallError
  bad_status : (path : Text) → ℕ → CallError
  not_rewritten : CallError

-- The crates that read and write bodies: `serde_json` for a script's values, `base64`, and the
-- decoded pairs of a query as `url` finds them.
pub record Bodies : Type 1 where
  pub Script : Type 0
  pub from_slice : Text → Result Text Script
  pub to_vec : Script → Result Text Text
  pub decode_base64 : Text → Option Text
  pub query_pairs : Text → Option (List (Text × Text))

unfoldable pub body_text : Text → Result CallError Text
body_text body = if is_utf8 body then ok body else err no_utf8

unfoldable pub body_json : (bodies : Bodies) → Text → Result CallError bodies.Script
body_json bodies body = map_err no_json (bodies.from_slice body)

-- A `HashMap`: an entry takes the place of an earlier one with its key.
unfoldable pub put : Text → Text → List (Text × Text) → List (Text × Text)
put key value [] = (key, value) ∷ []
put key value ((k, v) ∷ map) =
    let rest = put key value map in if text_eq k key then (key, value) ∷ map else (k, v) ∷ rest

unfoldable pub find_text : Text → List (Text × Text) → Option Text
find_text key [] = none
find_text key ((k, v) ∷ map) =
    let rest = find_text key map in if text_eq k key then some v else rest

pub record ScriptRequest : Type 0 where
  pub method : Text
  pub path : Text
  pub query : Text
  pub headers : List (Text × Text)
  pub body : Text

-- `HashMap::get`
unfoldable pub header : ScriptRequest → Text → Option Text
unfolding find_text
header request name = find_text (to_ascii_lowercase name) request.headers

unfoldable pub is_json : ScriptRequest → Bool
unfolding header lit json_content_type
is_json request = json_content_type (header request (lit "content-type"))

unfoldable pub query_param : Bodies → ScriptRequest → Text → Option Text
unfolding find_text lit
query_param bodies request name =
    elim (bodies.query_pairs (lit "https://proxy/?" ++ request.query)) [
      | some pairs ↦ find_text name pairs
      | none ↦ none
    ]

unfoldable pub insert_name : Text → List Text → List Text
insert_name name [] = name ∷ []
insert_name name (other ∷ names) =
    let rest = insert_name name names in
    if text_lt other name then other ∷ rest else name ∷ (other ∷ names)

unfoldable pub sorted_keys : List (Text × Text) → List Text
unfolding insert_name
sorted_keys [] = []
sorted_keys ((key, v) ∷ map) = insert_name key (sorted_keys map)

unfoldable pub header_names : ScriptRequest → List Text
unfolding sorted_keys
header_names request = sorted_keys request.headers

abbrev pub or_empty : Option Text → Text
or_empty (some s) = s
or_empty none = []

abbrev pub non_empty_body : Text → Option Text
non_empty_body [] = none
non_empty_body (b ∷ body) = some (b ∷ body)

pub record BmcRequest : Type 0 where
  pub method : Text
  pub path : Text
  pub body : Option Text
  pub content_type : Option Text
  pub headers : List (Text × Text)

abbrev pub get_or_insert : Option Text → Text → Option Text
get_or_insert (some s) fallback = some s
get_or_insert none fallback = some fallback

unfoldable pub json : (bodies : Bodies) → BmcRequest → bodies.Script → Result CallError BmcRequest
unfolding lit
json bodies request value = do
  body ← map_err no_json (bodies.to_vec value)
  ok (record request {
    body = some body;
    content_type = get_or_insert request.content_type (lit "application/json");
  })

unfoldable pub text : BmcRequest → Text → BmcRequest
unfolding lit
text request body = record request {
  body = some body;
  content_type = get_or_insert request.content_type (lit "text/plain; charset=utf-8");
}

unfoldable pub base64 : Bodies → BmcRequest → Text → Result CallError BmcRequest
unfolding lit
base64 bodies request body = do
  bytes ← ok_or (no_base64 body) (bodies.decode_base64 body)
  ok (record request {
    body = some bytes;
    content_type = get_or_insert request.content_type (lit "application/octet-stream");
  })

unfoldable pub set_content_type : BmcRequest → Text → BmcRequest
set_content_type request value = record request { content_type = some value }

unfoldable pub set_path : BmcRequest → Text → Result CallError BmcRequest
unfolding require_absolute
set_path request value = do
  checked ← map_err refused (require_absolute value)
  ok (record request { path = value })

unfoldable pub set_header : BmcRequest → Text → Text → Result CallError BmcRequest
unfolding script_may_set
set_header request name value =
    if not (script_may_set name)
    then err (header_refused name)
    else ok (record request { headers = request.headers ++ (name, value) ∷ [] })

module _ (http : HeaderMaps) where
  open http use {HeaderMap, HeaderValue, to_str, iter}

  -- The `filter` and the `filter_map` of `script_request`, into the map.
  unfoldable pub readable_headers :
      List (Text × HeaderValue) → List (Text × Text) → List (Text × Text)
  unfolding put is_redacted
  readable_headers [] map = map
  readable_headers ((name, value) ∷ entries) map = readable_headers entries (
      if is_redacted name
      then map
      else elim (to_str value) [ some s ↦ put (to_ascii_lowercase name) s map | none ↦ map ])

  unfoldable pub script_request : Parts http → (body : Text) → ScriptRequest
  unfolding readable_headers
  script_request parts body = record {
    method = parts.method;
    path = parts.path;
    query = or_empty parts.query;
    headers = readable_headers (iter parts.headers) [];
    body = body;
  }

  -- The `filter` and the `filter_map` of `inbound`.
  unfoldable pub seeded_headers : List (Text × HeaderValue) → List (Text × Text)
  unfolding script_may_set
  seeded_headers [] = []
  seeded_headers ((name, value) ∷ entries) =
      let rest = seeded_headers entries in
      if script_may_set name
      then elim (to_str value) [ some s ↦ (name, s) ∷ rest | none ↦ rest ]
      else rest

  abbrev pub with_query : Text → Option Text → Text
  with_query path (some query) = path ++ (b'?' ∷ query)
  with_query path none = path

  unfoldable pub inbound : RequestCtx http → BmcRequest
  unfolding seeded_headers content_type
  inbound ctx = record {
    method = ctx.parts.method;
    path = with_query ctx.parts.path ctx.parts.query;
    body = non_empty_body ctx.body;
    content_type = content_type http ctx.parts.headers;
    headers = seeded_headers (iter ctx.parts.headers);
  }
