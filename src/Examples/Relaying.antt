-- ===== src/Examples/Relaying.antt =====
-- A request with credentials, relayed to a BMC at 10.0.0.1 behind https://p, and the answer to it.
use programmable_redfish_pro.Prelude.{
  ◌≡◌, refl, false, none, some, List, [], ◌∷◌, ◌++◌, Text, lit, text_eq, starts_with, ok,
}
use programmable_redfish_pro.Http.Address.{SocketAddrV4, socket_text, ip_text, decimal}
use programmable_redfish_pro.Json.{Value, str}
use programmable_redfish_pro.DeepPath.{contains_text}
use programmable_redfish_pro.Http.{is_redacted, is_url_header}
use programmable_redfish_pro.Http.Body.{Codec}
use programmable_redfish_pro.Http.Headers.{values_of}
use programmable_redfish_pro.Http.Headers.Copied.{kept}
use programmable_redfish_pro.Http.Headers.Listed.{listed, listed-IsLawful, names, without}
use programmable_redfish_pro.Http.Relay.{is_end_to_end, is_json}
use programmable_redfish_pro.Http.Relay.Credentials.{
  Alike, both_empty, same_entry, other_credential,
}
use programmable_redfish_pro.Http.Rewrite.Headers.{rewrite_headers}
use programmable_redfish_pro.Http.Rewrite.Headers.Kept.{HeaderOutcome, rewrite_headers_lem}
use programmable_redfish_pro.Bmc.Context.{Parts, RequestCtx, Outbound, Client, context}
use programmable_redfish_pro.Bmc.Request.{BmcRequest, script_request, inbound}
use programmable_redfish_pro.Bmc.Request.Hidden.{script_request-Alike}
use programmable_redfish_pro.Bmc.Send.{prepare}
use programmable_redfish_pro.Bmc.Send.Credentials.{
  is_relayed, replaced, prepare-credentials, prepare-target,
}
use programmable_redfish_pro.Bmc.Forward.{
  ForwardedBody, buffered, forward, forward_request, rewrite,
}
use programmable_redfish_pro.Bmc.Forward.Outcome.{Answered, forward-Answered, forward_request_lem}
use programmable_redfish_pro.Bmc.Forward.Rewritten.{RewriteOutcome, rewrite_lem}
use programmable_redfish_pro.Bmc.Forward.Hidden.{hides-rewrite}
use programmable_redfish_pro.Http.Rewrite.Shown.{Shown}
use programmable_redfish_pro.Http.Rewrite.{is_target, rewrite_text, host_of}
use programmable_redfish_pro.Http.Swap.{trim_end_slashes, swap_authorities}

-- A client whose BMC answers every request with one document.
abbrev pub echo : Client listed
echo = record {
  World = Unit;
  Stream = Text;
  parse_method = some;
  send = λ outbound w. (
    ok (record {
      status = 200;
      headers = (lit "content-type", lit "application/json") ∷ (lit "connection", lit "close") ∷ [];
      body = lit "at https://10.0.0.1/a";
    }),
    w,
  );
  bytes = λ body w. (ok body, w);
}

abbrev pub with_secret : Text → List (Text × Text)
with_secret secret =
    (lit "authorization", secret) ∷ (lit "accept", lit "*/*") ∷ (lit "connection", lit "close") ∷ []

abbrev pub parts_of : Text → Parts listed
parts_of secret = record {
  method = lit "GET";
  path = lit "/redfish/v1";
  query = none;
  headers = with_secret secret;
}

abbrev pub target : SocketAddrV4
target = record { ip = record { first = 10; second = 0; third = 0; fourth = 1 }; port = 443 }

abbrev pub base_url : Text
base_url = lit "https://p/"

abbrev pub ctx_of : Text → RequestCtx listed
ctx_of secret = context listed target base_url (parts_of secret) []

-- A script that tries to bring its own credential.
abbrev forged : BmcRequest
forged = record {
  method = lit "GET";
  path = lit "/redfish/v1/Systems";
  body = none;
  content_type = none;
  headers = (lit "Authorization", lit "forged") ∷ (lit "accept", lit "text/xml") ∷ [];
}

abbrev sent : Outbound listed
sent = record {
  method = lit "GET";
  url = lit "https://10.0.0.1:443/redfish/v1/Systems";
  headers = (lit "accept", lit "text/xml") ∷ (lit "authorization", lit "secret") ∷ [];
  body = none;
}

prepare-credentials_example :
    values_of (lit "authorization") sent.headers
    ≡ replaced (kept (is_relayed (lit "authorization")) (lit "secret" ∷ [])) []
unfolding prepare context values_of text_eq without lit socket_text ip_text decimal
prepare-credentials_example =
    prepare-credentials listed echo listed-IsLawful target base_url (parts_of (lit "secret")) []
      forged sent (lit "authorization") refl refl

prepare-target_example :
    (rest : Text) × (sent.url ≡ lit "https://" ++ (socket_text target ++ b'/' ∷ rest))
    × (starts_with (lit "/") rest ≡ false)
unfolding prepare context values_of text_eq without lit socket_text ip_text decimal
prepare-target_example = prepare-target listed echo (ctx_of (lit "secret")) forged sent refl

pub other_secret : Alike listed (with_secret (lit "secret")) (with_secret (lit "guess"))
unfolding lit is_redacted text_eq
other_secret = other_credential _ _ _ refl (same_entry _ _ (same_entry _ _ both_empty))

script_request-Alike_example :
    (script_request listed (parts_of (lit "secret")) []
      ≡ script_request listed (parts_of (lit "guess")) [])
    × (inbound listed (ctx_of (lit "secret")) ≡ inbound listed (ctx_of (lit "guess")))
unfolding context
script_request-Alike_example =
    script_request-Alike listed listed-IsLawful (ctx_of (lit "secret")) (ctx_of (lit "guess"))
      other_secret refl refl refl refl

rewrite_headers_lem_example :
    (new_headers : List (Text × Text)) × (rewrite_headers listed target base_url
        ((lit "location", lit "https://10.0.0.1/a") ∷ [])
      ≡ some new_headers)
    × HeaderOutcome listed target base_url
        (lit "location")
        (lit "https://10.0.0.1/a" ∷ [])
        (values_of (lit "location") new_headers)
unfolding values_of text_eq lit
rewrite_headers_lem_example =
    rewrite_headers_lem listed target base_url listed-IsLawful
      ((lit "location", lit "https://10.0.0.1/a") ∷ []) (lit "location")

forward-Answered_example :
    Answered listed listed-IsLawful echo
      (forward listed echo (λ v. []) (ctx_of (lit "secret")) tt).0
forward-Answered_example =
    forward-Answered listed listed-IsLawful echo (λ v. []) (ctx_of (lit "secret")) tt

forward_request_lem_example :
    values_of (lit "connection") (forward_request listed echo (ctx_of (lit "secret"))).headers
    ≡ kept (is_end_to_end (lit "connection")) (lit "close" ∷ [])
unfolding values_of context text_eq lit
forward_request_lem_example =
    forward_request_lem listed listed-IsLawful echo (ctx_of (lit "secret")) (lit "connection")

-- A codec for which every body is one string.
abbrev whole : Codec
whole = record {
  from_slice = λ body. ok (str body);
  to_vec = λ v. elim v [ str s ↦ ok s | _ ↦ ok [] ];
}

abbrev json_headers : List (Text × Text)
json_headers = (lit "content-type", lit "application/json") ∷ []

rewrite_lem_example :
    RewriteOutcome listed echo whole (ctx_of (lit "secret")) 200 json_headers (lit "hi") (
      rewrite listed echo whole
        (ctx_of (lit "secret"))
        (record { status = 200; headers = json_headers; body = buffered (lit "hi") }))
unfolding lit is_json values_of text_eq
rewrite_lem_example =
    rewrite_lem listed echo whole (ctx_of (lit "secret")) listed-IsLawful 200 b'h' json_headers
      (b'i' ∷ []) refl

-- A codec that reads every body as a link to the BMC, and writes a string as it is.
abbrev one_link : Codec
one_link = record {
  from_slice = λ body. ok (str (lit "https://10.0.0.1/a"));
  to_vec = λ v. elim v [ str s ↦ ok s | _ ↦ ok [] ];
}

hides-rewrite_example :
    (new_body : Text) × (◌≡◌ {A = ForwardedBody Text}
      (buffered (lit "https://p/a"))
      (buffered new_body))
    × (w : Value) × (one_link.to_vec w ≡ ok new_body)
    × ¬ Shown target w
unfolding rewrite text_eq lit is_json values_of names is_url_header contains_text starts_with
    context trim_end_slashes is_target host_of ip_text decimal rewrite_text swap_authorities
hides-rewrite_example =
    hides-rewrite listed echo listed-IsLawful one_link (ctx_of (lit "secret")) b'h' (lit "ttps")
      (lit "p") refl refl refl refl refl 200 b'h' json_headers (b'i' ∷ [])
      (record { status = 200; headers = json_headers; body = buffered (lit "https://p/a") }) refl
      refl
