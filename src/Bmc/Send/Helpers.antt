-- ===== src/Bmc/Send/Helpers.antt =====
-- What the helpers that only read, `bmc::get` and all that is built on `get_json`, send to the BMC.
use programmable_redfish_pro.Http.Address.{SocketAddrV4}
use programmable_redfish_pro.Prelude.{
  ◌≡◌, refl, sym, ◌∙◌, ap, none, some, [], Text, lit, ok, map_err, ok_or, >>=-eq-ok, ok_injective,
}
use programmable_redfish_pro.Http.Headers.{HeaderMaps, IsLawful}
use programmable_redfish_pro.Http.Headers.Copied.{kept}
use programmable_redfish_pro.Bmc.{require_absolute}
use programmable_redfish_pro.Bmc.Context.{Parts, Client, Outbound, context}
use programmable_redfish_pro.Bmc.Request.{BmcRequest}
use programmable_redfish_pro.Bmc.Send.{add_headers, outbound_headers, prepare}
use programmable_redfish_pro.Bmc.Send.Credentials.{
  is_relayed, replaced, get_all-insert_each, get_all-relay_headers,
}

-- The request of `subrequest` for a `GET` or a `DELETE`, which have no body.
abbrev pub without_body : (method path : Text) → BmcRequest
unfolding lit
without_body method path = record {
  method = method;
  path = path;
  body = none;
  content_type = some (lit "application/json");
  headers = [];
}

-- A subrequest without a body carries the relayed headers of the request that the proxy was asked,
-- each with its last value, and no other header at all.
pub prepare-without_body :
    (http : HeaderMaps) (client : Client http)
    → IsLawful http
    → (target : SocketAddrV4) (base : Text) (parts : Parts http) (body method path : Text)
      (outbound : Outbound http) (name : Text)
    → prepare http client (context http target base parts body) (without_body method path)
      ≡ ok outbound
    → http.get_all outbound.headers name
      ≡ replaced (kept (is_relayed name) (http.get_all parts.headers name)) []
unfolding prepare context outbound_headers add_headers
prepare-without_body http client lawful target base parts body method path outbound name sent =
    let ctx = context http target base parts body in
    let (u, absolute, h1) = >>=-eq-ok (map_err _ (require_absolute path)) _ sent in
    let (m, known, h2) = >>=-eq-ok (ok_or _ (client.parse_method method)) _ h1 in
    sym (ap (λ (o : Outbound http). http.get_all o.headers name) (ok_injective h2))
    ∙ get_all-insert_each http lawful (http.iter ctx.relay_headers) http.new name
    ∙ rw
        (
          lawful.values_of-iter ctx.relay_headers name,
          lawful.get_all-new name,
          get_all-relay_headers http lawful parts.headers name,
        )
        refl
