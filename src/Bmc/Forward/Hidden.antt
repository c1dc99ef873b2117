-- ===== src/Bmc/Forward/Hidden.antt =====
-- That `.rewrite()` of src/script_bmc.rs leaves no URL of the BMC in the strings of a JSON body.
use programmable_redfish_pro.Prelude.{◌≡◌, true, false, not, ℕ, ◌∷◌, ◌++◌, Text, all, ok}
use programmable_redfish_pro.Json.{Value}
use programmable_redfish_pro.Http.Swap.{
  sep, is_ascii_alphabetic, is_scheme_byte, is_delimiter, trim_end_slashes,
}
use programmable_redfish_pro.Http.Rewrite.{is_target}
use programmable_redfish_pro.Http.Rewrite.Hidden.{hides-rewritten_value}
use programmable_redfish_pro.Http.Rewrite.Shown.{Shown}
use programmable_redfish_pro.Http.Body.{Codec}
use programmable_redfish_pro.Http.Headers.{HeaderMaps, IsLawful}
use programmable_redfish_pro.Http.Relay.{is_json}
use programmable_redfish_pro.Bmc.Context.{RequestCtx, Client}
use programmable_redfish_pro.Bmc.Forward.{buffered, Forwarded, rewrite}
use programmable_redfish_pro.Bmc.Forward.Leak.{rewrite-declared}

-- The base of the request is a scheme and an authority, which is not the BMC's. Where `.rewrite()`
-- succeeds on a response that declares JSON and holds a body, which is not empty, the body that it
-- gives is the encoding of a document in which no string, keys left aside, shows a URL of the BMC: a
-- scheme, `://`, and the BMC's address with any port or none, up to the end of the authority, where
-- that stands before any other `://`, or after a character that ends an authority and is no slash.
pub hides-rewrite :
    (http : HeaderMaps) (client : Client http)
    → IsLawful http
    → (codec : Codec) (ctx : RequestCtx http) (b : ℕ) (s authority : Text)
    → trim_end_slashes ctx.base ≡ (b ∷ s) ++ (sep ++ authority)
    → is_ascii_alphabetic b ≡ true
    → all is_scheme_byte (b ∷ s) ≡ true
    → all (λ c. not (is_delimiter c)) authority ≡ true
    → is_target authority ctx.target ≡ false
    → (status x : ℕ) (headers : http.HeaderMap) (body : Text)
      (result : Forwarded http client.Stream)
    → is_json http headers ≡ true
    → rewrite http client codec ctx
        (record { status = status; headers = headers; body = buffered (x ∷ body) })
      ≡ ok result
    → (new_body : Text) × (result.body ≡ buffered new_body)
      × (w : Value) × (codec.to_vec w ≡ ok new_body)
      × ¬ Shown ctx.target w
hides-rewrite http client lawful codec ctx b s authority parts letter in_scheme no_delimiter apart
      status x headers body result declared h =
    let (new_body, there, same_status, swapped, replaced) =
      rewrite-declared http client lawful codec ctx status x headers body result declared h in
    (
      new_body,
      there,
      replaced.rewritten,
      replaced.encoded,
      hides-rewritten_value ctx.target ctx.base b s authority parts letter in_scheme no_delimiter
          apart replaced.value replaced.rewrote,
    )
