-- ===== src/Http/Rewrite/Headers.antt =====
-- `rewrite_headers` and `rewrite_response` of src/http.rs. A panic is `none`, which
-- `rewrite_response` reports as an error of its own.
pub mod Kept
use programmable_redfish_pro.Http.Address.{SocketAddrV4}
use programmable_redfish_pro.Prelude.{
  Bool, true, false, Option, none, some, List, [], ◌∷◌, Text, if◌then◌else◌, Result, ok, err,
}
use programmable_redfish_pro.Prelude.Optional.{◌>>=◌}
use programmable_redfish_pro.Http.{is_bmc_relative, is_url_header}
use programmable_redfish_pro.Http.Swap.{swap_authorities}
use programmable_redfish_pro.Http.Body.{Codec, RewriteError, panicked, rewrite_json}
use programmable_redfish_pro.Http.Headers.{HeaderMaps}
use programmable_redfish_pro.Http.Headers.Copied.{append_all}
use programmable_redfish_pro.Http.Relay.{content_type}
use programmable_redfish_pro.Http.Rewrite.{is_target}

-- The authorities that are swapped in a header of that name.
unfoldable pub is_swapped : (target : SocketAddrV4) → (name authority : Text) → Bool
unfolding is_bmc_relative
is_swapped target name authority = if is_bmc_relative name then true else is_target authority target

unfoldable pub url_headers : List Text → List Text
url_headers [] = []
url_headers (name ∷ names) =
    let rest = url_headers names in if is_url_header name then name ∷ rest else rest

module _ (http : HeaderMaps) where
  open http use {HeaderMap, HeaderValue, to_str, from_str, get_all, remove, keys}

  module _ (target : SocketAddrV4) (base : Text) where
    -- The closure over one value.
    unfoldable pub rewrite_header_value : Text → HeaderValue → Option HeaderValue
    unfolding is_swapped
    rewrite_header_value name value = elim (to_str value) [
      | none ↦ some value
      | some text ↦ do
        swapped ← swap_authorities base text (is_swapped target name)
        some (elim (from_str swapped) [ some new_value ↦ new_value | none ↦ value ])
    ]

    unfoldable pub rewrite_header_values : Text → List HeaderValue → Option (List HeaderValue)
    unfolding rewrite_header_value
    rewrite_header_values name [] = some []
    rewrite_header_values name (value ∷ values) = do
      first ← rewrite_header_value name value
      rest ← rewrite_header_values name values
      some (first ∷ rest)

    -- All values are taken out and put back, unless there are none.
    abbrev pub put_back : Text → List HeaderValue → HeaderMap → HeaderMap
    put_back name [] headers = headers
    put_back name (value ∷ values) headers =
        append_all http name (value ∷ values) (remove headers name)

    unfoldable pub rewrite_names : List Text → HeaderMap → Option HeaderMap
    unfolding rewrite_header_values append_all
    rewrite_names [] headers = some headers
    rewrite_names (name ∷ names) headers = do
      rewritten ← rewrite_header_values name (get_all headers name)
      rewrite_names names (put_back name rewritten headers)

    unfoldable pub rewrite_headers : HeaderMap → Option HeaderMap
    unfolding rewrite_names url_headers
    rewrite_headers headers = rewrite_names (url_headers (keys headers)) headers

    -- The new headers, and the new body where it is another.
    unfoldable pub rewrite_response :
        Codec → HeaderMap → (body : Text) → Result RewriteError (HeaderMap × Option Text)
    unfolding rewrite_headers rewrite_json
    rewrite_response codec headers body = elim (rewrite_headers headers) [
      | none ↦ err panicked
      | some rewritten ↦ elim (rewrite_json codec target base (content_type http rewritten) body) [
        | ok new_body ↦ ok (rewritten, new_body)
        | err error ↦ err error
      ]
    ]
