-- ===== src/Bmc/Forward/Leak.antt =====
-- What `.rewrite()` makes of a forwarded response.
use programmable_redfish_pro.Http.Address.{SocketAddrV4}
use programmable_redfish_pro.Prelude.{
  ℕ, ◌≡◌, refl, sym, ◌∙◌, ap, true, false, inl, inr, Option, some, List, ◌∷◌, text_eq, Text, lit,
  arith, ok, Result-cases, ok_injective, err_ne_ok,
}
use programmable_redfish_pro.Http.{is_url_header, is_bmc_relative}
use programmable_redfish_pro.Http.Body.{Codec, json_content_type, rewrite_json}
use programmable_redfish_pro.Http.Body.Refusal.{Replaced, rewrite_json-declared}
use programmable_redfish_pro.Http.Headers.{HeaderMaps, IsLawful}
use programmable_redfish_pro.Http.Relay.{content_type, is_json}
use programmable_redfish_pro.Http.Rewrite.Headers.{rewrite_headers, rewrite_response}
use programmable_redfish_pro.Http.Rewrite.Headers.Kept.{
  HeaderOutcome, rewritten, untouched, rewrite_headers_lem,
}
use programmable_redfish_pro.Bmc.Context.{RequestCtx, Client}
use programmable_redfish_pro.Bmc.Forward.{buffered, Forwarded, rewrite}

content_type_is_no_link : is_url_header (lit "content-type") ≡ false
unfolding is_url_header is_bmc_relative lit text_eq
content_type_is_no_link = refl

module _ (http : HeaderMaps) where
  open http use {HeaderMap, HeaderValue, get, get_all}

  untouched-eq :
      (target : SocketAddrV4) (base name : Text) {values new_values : List HeaderValue}
      → is_url_header name ≡ false
      → HeaderOutcome http target base name values new_values
      → new_values ≡ values
  untouched-eq target base name plain (rewritten link each) = ground (arith, plain, link)
  untouched-eq target base name plain (untouched same) = refl

  -- Rewriting the headers leaves the declared type as it is.
  pub content_type-rewrite_headers :
      IsLawful http
      → (target : SocketAddrV4) (base : Text) (headers : HeaderMap)
      → (new_headers : HeaderMap) × (rewrite_headers http target base headers ≡ some new_headers)
        × (content_type http new_headers ≡ content_type http headers)
  unfolding content_type lit
  content_type-rewrite_headers lawful target base headers =
      let (new_headers, done, outcome) =
        rewrite_headers_lem http target base lawful headers (lit "content-type") in
      let same = untouched-eq target base (lit "content-type") content_type_is_no_link outcome in
      (
        new_headers,
        done,
        rw
            (
              lawful.get-get_all new_headers (lit "content-type"),
              lawful.get-get_all headers (lit "content-type"),
              same,
            )
            refl,
      )

  rewrite_response-declared :
      IsLawful http
      → (codec : Codec) (target : SocketAddrV4) (base : Text) (headers : HeaderMap) (x : ℕ)
        (body : Text) {new_headers : HeaderMap} {result : Option Text}
      → is_json http headers ≡ true
      → rewrite_response http target base codec headers (x ∷ body) ≡ ok (new_headers, result)
      → (new_body : Text) × (result ≡ some new_body)
        × (rewrite_headers http target base headers ≡ some new_headers)
        × Replaced codec target base (x ∷ body) new_body
  unfolding rewrite_response is_json
  rewrite_response-declared lawful codec target base headers x body {new_headers} {result} declared
        h =
      let (headers1, done, same) = content_type-rewrite_headers lawful target base headers in
      let still : json_content_type (content_type http headers1) ≡ true = rw same declared in
      let h1 = rw (rewrite_response, done) at h in
      elim (Result-cases (rewrite_json codec target base (content_type http headers1) (x ∷ body))) [
        | inl (result1, rewrote) ↦
            let both = ok_injective (rw rewrote at h1) in
            let (new_body, there, replaced) =
              rewrite_json-declared codec target base (content_type http headers1) x body still
                result1 rewrote in
            (
              new_body,
              sym (ap (λ (p : HeaderMap × Option Text). p.1) both) ∙ there,
              done ∙ ap (λ (p : HeaderMap × Option Text). some p.0) both,
              replaced,
            )
        | inr (error, failed) ↦ absurd (err_ne_ok (rw failed at h1))
      ]

-- Where `.rewrite()` succeeds on a response that declares JSON and holds a body, which is not
-- empty, both its headers and its body were rewritten: the body was read, the target's authorities
-- in its strings were swapped for the base, and it was encoded again. Its status stays.
pub rewrite-declared :
    (http : HeaderMaps) (client : Client http)
    → IsLawful http
    → (codec : Codec) (ctx : RequestCtx http) (status x : ℕ) (headers : http.HeaderMap)
      (body : Text) (result : Forwarded http client.Stream)
    → is_json http headers ≡ true
    → rewrite http client codec ctx
        (record { status = status; headers = headers; body = buffered (x ∷ body) })
      ≡ ok result
    → (new_body : Text) × (result.body ≡ buffered new_body)
      × (result.status ≡ status)
      × (rewrite_headers http ctx.target ctx.base headers ≡ some result.headers)
      × Replaced codec ctx.target ctx.base (x ∷ body) new_body
unfolding rewrite
rewrite-declared http client lawful codec ctx status x headers body result declared h =
    elim (Result-cases (rewrite_response http ctx.target ctx.base codec headers (x ∷ body))) [
      | inr (error, failed) ↦ absurd (err_ne_ok (rw (rewrite, failed) at h))
      | inl ((new_headers, new_text), done) ↦
          let (new_body, there, swapped, replaced) =
            rewrite_response-declared http lawful codec ctx.target ctx.base headers x body declared
              done in
          let same = ok_injective (rw (rewrite, done, there) at h) in
          (
            new_body,
            sym (ap (λ (f : Forwarded http client.Stream). f.body) same),
            sym (ap (λ (f : Forwarded http client.Stream). f.status) same),
            swapped ∙ ap (λ (f : Forwarded http client.Stream). some f.headers) same,
            replaced,
          )
    ]
