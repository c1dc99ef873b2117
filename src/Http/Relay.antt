-- ===== src/Http/Relay.antt =====
-- The functions of src/http.rs that go over whole header maps, but for the rewriting of them.
pub mod Credentials
use programmable_redfish_pro.Prelude.{
  ℕ, Bool, true, false, ◌&&◌, ◌||◌, not, map, Option, none, some, List, [], ◌∷◌, Text, lit, text_eq,
  from_utf8, if◌then◌else◌,
}
use programmable_redfish_pro.Prelude.Optional.{◌>>=◌}
use programmable_redfish_pro.DeepPath.{to_ascii_lowercase}
use programmable_redfish_pro.Http.{is_hop_by_hop, is_redacted}
use programmable_redfish_pro.Http.Body.{json_content_type, truncate_body}
use programmable_redfish_pro.Http.Headers.{HeaderMaps}
use programmable_redfish_pro.Http.Headers.Copied.{append_kept}

-- What the loop of `copy_end_to_end` does not pass by.
unfoldable pub is_end_to_end : Text → Bool
unfolding is_hop_by_hop lit
is_end_to_end name =
    not (is_hop_by_hop name || text_eq name (lit "host"))
    && not (text_eq name (lit "accept-encoding"))

abbrev pub script_forbidden_headers : List Text
unfolding lit
script_forbidden_headers = lit "authorization" ∷ lit "proxy-authorization" ∷ lit "x-auth-token" ∷ []

abbrev pub redaction : Text
unfolding lit
redaction = lit "<redacted>"

unfoldable pub render_body : Text → Option (Text × Option ℕ)
render_body body = do text ← from_utf8 body; some (truncate_body text)

module _ (http : HeaderMaps) where
  open http use {HeaderMap, HeaderValue, to_str, get, iter}

  unfoldable pub copy_end_to_end : (source dest : HeaderMap) → HeaderMap
  unfolding append_kept is_end_to_end
  copy_end_to_end source dest = append_kept http is_end_to_end (iter source) dest

  unfoldable pub content_type : HeaderMap → Option Text
  unfolding lit
  content_type headers = do value ← get headers (lit "content-type"); to_str value

  unfoldable pub is_json : HeaderMap → Bool
  unfolding json_content_type content_type
  is_json headers = json_content_type (content_type headers)

  unfoldable pub rendered : HeaderValue → Text
  unfolding lit
  rendered value = elim (to_str value) [ some text ↦ text | none ↦ lit "<non-utf8>" ]

  unfoldable pub redact_entry : Text × HeaderValue → Text × Text
  unfolding is_redacted rendered
  redact_entry (name, value) =
      let lower = to_ascii_lowercase name in
      if is_redacted lower then (lower, redaction) else (lower, rendered value)

  unfoldable pub redact_headers : HeaderMap → List (Text × Text)
  unfolding redact_entry
  redact_headers headers = map redact_entry (iter headers)
