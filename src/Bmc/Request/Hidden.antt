-- ===== src/Bmc/Request/Hidden.antt =====
-- What a handler can learn of the request's credentials from what it is given.
use programmable_redfish_pro.Prelude.{
  ◌≡◌, refl, sym, ◌∙◌, ap, true, false, Bool-cases, inl, inr, none, some, List, [], ◌∷◌, Text, lit,
  text_eq, text_eq_iff, if◌then◌else◌, arith,
}
use programmable_redfish_pro.DeepPath.{to_ascii_lowercase}
use programmable_redfish_pro.Http.{is_redacted}
use programmable_redfish_pro.Http.Headers.{HeaderMaps, IsLawful, values_of, first_value}
use programmable_redfish_pro.Http.Relay.{content_type}
use programmable_redfish_pro.Http.Relay.Credentials.{
  Alike, both_empty, same_entry, other_credential, is_redacted-lower,
}
use programmable_redfish_pro.Bmc.{script_may_set}
use programmable_redfish_pro.Bmc.Context.{RequestCtx}
use programmable_redfish_pro.Bmc.Request.{readable_headers, script_request, seeded_headers, inbound}

redacted-may_not : (name : Text) → is_redacted name ≡ true → script_may_set name ≡ false
unfolding script_may_set
redacted-may_not name h = rw (script_may_set, h) refl

module _ (http : HeaderMaps) where
  open http use {HeaderMap, HeaderValue, to_str, iter, get_all, get}

  values_of-Alike :
      (n : Text) {es fs : List (Text × HeaderValue)}
      → Alike http es fs
      → is_redacted n ≡ false
      → values_of n es ≡ values_of n fs
  unfolding values_of
  values_of-Alike n both_empty h = refl
  values_of-Alike n (same_entry name value rest) h = rw (values_of-Alike n rest h) refl
  values_of-Alike n (other_credential name value other credential rest) h =
      elim (Bool-cases (text_eq n name)) [
        | inl same ↦
            let redacted : is_redacted n ≡ true =
              ap is_redacted ((text_eq_iff n name).0 same) ∙ credential in
            ground (arith, redacted, h)
        | inr apart ↦ rw apart (values_of-Alike n rest h)
      ]

  readable_headers-Alike :
      {es fs : List (Text × HeaderValue)} (map : List (Text × Text))
      → Alike http es fs
      → readable_headers http es map ≡ readable_headers http fs map
  unfolding readable_headers
  readable_headers-Alike map both_empty = refl
  readable_headers-Alike map (same_entry name value rest) = readable_headers-Alike _ rest
  readable_headers-Alike map (other_credential name value other credential rest) =
      rw credential (readable_headers-Alike map rest)

  seeded_headers-Alike :
      {es fs : List (Text × HeaderValue)}
      → Alike http es fs
      → seeded_headers http es ≡ seeded_headers http fs
  unfolding seeded_headers
  seeded_headers-Alike both_empty = refl
  seeded_headers-Alike (same_entry name value rest) =
      ap
        (λ (l : List (Text × Text)).
          if script_may_set name
          then elim (to_str value) [ some s ↦ (name, s) ∷ l | none ↦ l ]
          else l)
        (seeded_headers-Alike rest)
  seeded_headers-Alike (other_credential name value other credential rest) =
      rw (redacted-may_not name credential) (seeded_headers-Alike rest)

  get-Alike :
      IsLawful http
      → (n : Text) (headers others : HeaderMap) → Alike http (iter headers) (iter others)
      → is_redacted n ≡ false
      → get headers n ≡ get others n
  get-Alike lawful n headers others alike h =
      let lower = to_ascii_lowercase n in
      lawful.get-get_all headers n
      ∙ ap (λ (vs : List HeaderValue). first_value vs)
          (sym (lawful.values_of-iter headers lower)
            ∙ (values_of-Alike lower alike (is_redacted-lower n ∙ h))
            ∙ lawful.values_of-iter others lower)
      ∙ sym (lawful.get-get_all others n)

  content_type-Alike :
      IsLawful http
      → (headers others : HeaderMap) → Alike http (iter headers) (iter others)
      → content_type http headers ≡ content_type http others
  unfolding content_type is_redacted lit text_eq
  content_type-Alike lawful headers others alike =
      rw (get-Alike lawful (lit "content-type") headers others alike refl) refl

  -- A handler is given the same, and seeds the same request, whatever the values of the
  -- credentials among the headers: two requests that differ in nothing else look alike to it.
  pub script_request-Alike :
      IsLawful http
      → (ctx other : RequestCtx http)
      → Alike http (iter ctx.parts.headers) (iter other.parts.headers)
      → ctx.parts.method ≡ other.parts.method
      → ctx.parts.path ≡ other.parts.path
      → ctx.parts.query ≡ other.parts.query
      → ctx.body ≡ other.body
      → (script_request http ctx.parts ctx.body ≡ script_request http other.parts other.body)
        × (inbound http ctx ≡ inbound http other)
  unfolding script_request inbound
  script_request-Alike lawful ctx other alike method path query body = (
    rw (readable_headers-Alike [] alike, method, path, query, body) refl,
    rw
        (
          seeded_headers-Alike alike,
          method,
          path,
          query,
          body,
          content_type-Alike lawful ctx.parts.headers other.parts.headers alike,
        )
        refl,
  )
