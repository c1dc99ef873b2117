-- ===== src/Http.antt =====
-- src/http.rs: which headers are credentials, and how a URL of the BMC becomes one of the proxy.
pub mod Swap
pub mod Relay
pub mod Rewrite
pub mod Body
pub mod Headers
pub mod Address
pub mod Url
use programmable_redfish_pro.Prelude.{
  Bool, ◌||◌, Option, none, some, List, [], ◌∷◌, Text, lit, text_eq, is_empty, split, any,
  if◌then◌else◌,
}
use programmable_redfish_pro.DeepPath.{to_ascii_lowercase}

abbrev pub eq_ignore_ascii_case : Text → Text → Bool
eq_ignore_ascii_case s t = text_eq (to_ascii_lowercase s) (to_ascii_lowercase t)

abbrev pub hop_by_hop : List Text
unfolding lit
hop_by_hop =
    lit "connection"
    ∷ lit "keep-alive"
    ∷ lit "proxy-authenticate"
    ∷ lit "proxy-authorization"
    ∷ lit "te"
    ∷ lit "trailer"
    ∷ lit "transfer-encoding"
    ∷ lit "upgrade"
    ∷ []

unfoldable pub is_hop_by_hop : Text → Bool
is_hop_by_hop name = any (λ h. eq_ignore_ascii_case name h) hop_by_hop

abbrev pub redacted : List Text
unfolding lit
redacted =
    lit "authorization"
    ∷ lit "proxy-authorization"
    ∷ lit "x-auth-token"
    ∷ lit "cookie"
    ∷ lit "set-cookie"
    ∷ []

unfoldable pub is_redacted : Text → Bool
is_redacted header_name = any (λ candidate. eq_ignore_ascii_case header_name candidate) redacted

unfoldable pub is_bmc_relative : Text → Bool
unfolding lit
is_bmc_relative name =
    any (λ h. eq_ignore_ascii_case name h) (lit "location" ∷ lit "content-location" ∷ [])

unfoldable pub is_url_header : Text → Bool
unfolding is_bmc_relative lit
is_url_header name =
    is_bmc_relative name || any (λ h. eq_ignore_ascii_case name h) (lit "link" ∷ [])
