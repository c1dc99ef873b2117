-- ===== src/Bmc/Send/Credentials.antt =====
-- What of a request to the BMC a script decides, and what it does not.
use mathlib.Core.List.{append-nil}
use programmable_redfish_pro.Http.Address.{SocketAddrV4, socket_text}
use programmable_redfish_pro.Prelude.{
  ◌≡◌, refl, sym, ◌∙◌, ap, Bool, true, false, ◌&&◌, not, any, Bool-cases, inl, inr, Option, none,
  some, Option-cases, List, [], ◌∷◌, ◌++◌, Text, lit, text_eq, text_eq_iff, starts_with, arith, ok,
  >>=-eq-ok, map_err, map_err-eq-ok, ok_or, ok_injective, err_ne_ok, All, ◌==◌, ==_iff,
}
use programmable_redfish_pro.DeepPath.{to_ascii_lowercase}
use programmable_redfish_pro.Http.{is_redacted, is_hop_by_hop}
use programmable_redfish_pro.Http.Headers.{HeaderMaps, IsLawful, values_of}
use programmable_redfish_pro.Http.Headers.Copied.{kept, append_all, get_all-append_all}
use programmable_redfish_pro.Http.Relay.Credentials.{to_ascii_lowercase_idempotent}
use programmable_redfish_pro.Bmc.{require_absolute, script_may_set}
use programmable_redfish_pro.Bmc.Context.{
  Parts, RequestCtx, Client, Outbound, relayed, relay_names, relay_headers, context,
}
use programmable_redfish_pro.Bmc.Request.{BmcRequest, refused}
use programmable_redfish_pro.Bmc.Send.{
  add_header, add_headers, insert_each, or_json, declare_body, outbound_headers, prepare,
}

script_may_set-lower :
    (name : Text) → script_may_set (to_ascii_lowercase name) ≡ script_may_set name
unfolding script_may_set is_redacted is_hop_by_hop
script_may_set-lower name = rw (to_ascii_lowercase_idempotent name) refl

-- The last of some values that take each other's place, after an older list.
abbrev pub replaced : {A : Type 0} → List A → List A → List A
replaced [] old = old
replaced (v ∷ vs) old = replaced vs (v ∷ [])

abbrev pub is_relayed : Text → Bool
is_relayed name = any (λ r. text_eq name r) relayed

unfoldable distinct : List Text → Bool
distinct [] = true
distinct (name ∷ names) = not (any (λ r. text_eq name r) names) && distinct names

relayed_distinct : distinct relayed ≡ true
unfolding distinct lit text_eq
relayed_distinct = refl

may_set-apart :
    (n key : Text) → script_may_set n ≡ false → script_may_set key ≡ true → text_eq n key ≡ false
may_set-apart n key h k = elim (Bool-cases (text_eq n key)) [
  | inr apart ↦ apart
  | inl same ↦
      let both : script_may_set n ≡ true = ap script_may_set ((text_eq_iff n key).0 same) ∙ k in
      ground (arith, both, h)
]

content_type_allowed : script_may_set (lit "content-type") ≡ true
unfolding script_may_set is_redacted is_hop_by_hop lit text_eq
content_type_allowed = refl

module _ (http : HeaderMaps) (lawful : IsLawful http) where
  open http use {HeaderMap, HeaderValue, from_str, from_bytes, new, append, insert, iter, get_all}

  get_all-add_header :
      (name value : Text) (headers : HeaderMap) (n : Text)
      → script_may_set n ≡ false
      → get_all (add_header http name value headers) n ≡ get_all headers n
  unfolding add_header
  get_all-add_header name value headers n h = elim (Bool-cases (script_may_set name)) [
    | inr stopped ↦ rw (add_header, stopped) refl
    | inl allowed ↦ elim (Option-cases (from_bytes name)) [
      | inl no_name ↦ rw (add_header, allowed, no_name) refl
      | inr (key, named) ↦ elim (Option-cases (from_str value)) [
        | inl no_value ↦ rw (add_header, allowed, named, no_value) refl
        | inr (v, valid) ↦
            let may : script_may_set key ≡ true =
              ap script_may_set (lawful.from_bytes-lowercase name key named)
              ∙ script_may_set-lower name
              ∙ allowed in
            rw
              (
                add_header,
                allowed,
                named,
                valid,
                lawful.get_all-append headers key v n,
                may_set-apart n key h may,
              )
              refl
      ]
    ]
  ]

  get_all-add_headers :
      (more : List (Text × Text)) (headers : HeaderMap) (n : Text)
      → script_may_set n ≡ false
      → get_all (add_headers http more headers) n ≡ get_all headers n
  unfolding add_headers
  get_all-add_headers [] headers n h = refl
  get_all-add_headers ((name, value) ∷ more) headers n h =
      get_all-add_headers more (add_header http name value headers) n h
      ∙ get_all-add_header name value headers n h

  pub get_all-insert_each :
      (entries : List (Text × HeaderValue)) (headers : HeaderMap) (n : Text)
      → get_all (insert_each http entries headers) n
        ≡ replaced (values_of n entries) (get_all headers n)
  unfolding insert_each values_of
  get_all-insert_each [] headers n = refl
  get_all-insert_each ((name, value) ∷ entries) headers n = elim (Bool-cases (text_eq n name)) [
    | inl same ↦
        rw
          (
            get_all-insert_each entries (insert headers name value) n,
            lawful.get_all-insert headers name value n,
            same,
          )
          refl
    | inr other ↦
        rw
          (
            get_all-insert_each entries (insert headers name value) n,
            lawful.get_all-insert headers name value n,
            other,
          )
          refl
  ]

  get_all-declare_body :
      (body content_type : Option Text) (headers : HeaderMap) (n : Text)
      → script_may_set n ≡ false
      → get_all (declare_body http body content_type headers) n ≡ get_all headers n
  unfolding declare_body
  get_all-declare_body none content_type headers n h = refl
  get_all-declare_body (some body) content_type headers n h =
      elim (Option-cases (from_str (or_json content_type))) [
        | inl invalid ↦ rw (declare_body, invalid) refl
        | inr (value, valid) ↦
            rw
              (
                declare_body,
                valid,
                lawful.get_all-insert headers (lit "content-type") value n,
                may_set-apart n (lit "content-type") h content_type_allowed,
              )
              refl
      ]

  get_all-outbound_headers :
      (ctx : RequestCtx http) (request : BmcRequest) (n : Text)
      → script_may_set n ≡ false
      → get_all (outbound_headers http ctx request) n ≡ replaced (get_all ctx.relay_headers n) []
  unfolding outbound_headers
  get_all-outbound_headers ctx request n h =
      get_all-declare_body request.body request.content_type _ n h
      ∙ get_all-insert_each (iter ctx.relay_headers) _ n
      ∙ rw
          (
            lawful.values_of-iter ctx.relay_headers n,
            get_all-add_headers request.headers new n h,
            lawful.get_all-new n,
          )
          refl

  get_all-relay_names :
      (names : List Text) (headers out : HeaderMap) (n : Text)
      → All (λ name. from_bytes name ≡ some name) names
      → distinct names ≡ true
      → get_all (relay_names http names headers out) n
        ≡ get_all out n ++ kept (any (λ r. text_eq n r) names) (get_all headers n)
  unfolding relay_names distinct
  get_all-relay_names [] headers out n valid d = sym (append-nil (get_all out n))
  get_all-relay_names (name ∷ names) headers out n (here, there) d =
      let apart : any (λ r. text_eq name r) names ≡ false = ground arith in
      let d' : distinct names ≡ true = ground arith in
      let rest =
        get_all-relay_names names headers (append_all http name (get_all headers name) out) n there
          d' in
      elim (Bool-cases (text_eq n name)) [
        | inl same ↦
            let one = (text_eq_iff n name).0 same in
            let none_left : any (λ r. text_eq n r) names ≡ false =
              ap (λ (s : Text). any (λ r. text_eq s r) names) one ∙ apart in
            rw
              (
                relay_names,
                here,
                rest,
                same,
                none_left,
                get_all-append_all http lawful name (get_all headers name) out n,
                same,
                append-nil (get_all out n ++ get_all headers name),
              )
              (ap (λ (s : Text). get_all out n ++ get_all headers s) (sym one))
        | inr other ↦
            rw
              (
                relay_names,
                here,
                rest,
                other,
                get_all-append_all http lawful name (get_all headers name) out n,
                other,
                append-nil (get_all out n),
              )
              refl
      ]

  -- A subrequest inherits exactly these headers of the request, with all their values.
  pub get_all-relay_headers :
      (headers : HeaderMap) (n : Text)
      → get_all (relay_headers http headers) n ≡ kept (is_relayed n) (get_all headers n)
  unfolding relay_headers lit
  get_all-relay_headers headers n =
      let plain = λ (name : Text). lawful.from_bytes-plain name in
      get_all-relay_names relayed headers new n
        (plain _ refl refl refl, (plain _ refl refl refl, (plain _ refl refl refl, tt)))
        relayed_distinct
      ∙ rw (lawful.get_all-new n) refl

-- Whatever headers a script gives a request, those it may not set are sent as the proxy decides: a
-- relayed header with its last value in the request that the proxy was asked, any other not at all.
pub prepare-credentials :
    (http : HeaderMaps) (client : Client http)
    → IsLawful http
    → (target : SocketAddrV4) (base : Text) (parts : Parts http) (body : Text)
      (request : BmcRequest) (outbound : Outbound http) (name : Text)
    → prepare http client (context http target base parts body) request ≡ ok outbound
    → script_may_set name ≡ false
    → http.get_all outbound.headers name
      ≡ replaced (kept (is_relayed name) (http.get_all parts.headers name)) []
unfolding prepare context
prepare-credentials http client lawful target base parts body request outbound name sent may_not =
    let ctx = context http target base parts body in
    let (u, absolute, h1) = >>=-eq-ok (map_err refused (require_absolute request.path)) _ sent in
    let (method, parsed, h2) = >>=-eq-ok (ok_or _ (client.parse_method request.method)) _ h1 in
    let same = ap (λ (o : Outbound http). http.get_all o.headers name) (ok_injective h2) in
    sym same
    ∙ get_all-outbound_headers http lawful ctx request name may_not
    ∙ rw (get_all-relay_headers http lawful parts.headers name) refl

require_absolute-ok :
    (path : Text) {u : Unit}
    → require_absolute path ≡ ok u
    → (rest : Text) × (path ≡ b'/' ∷ rest) × (starts_with (lit "/") rest ≡ false)
unfolding require_absolute lit starts_with
require_absolute-ok [] h = absurd (err_ne_ok h)
require_absolute-ok (b ∷ rest) h = elim (Bool-cases (b'/' == b)) [
  | inr other ↦ absurd (err_ne_ok (rw other at h))
  | inl slash ↦ elim (Bool-cases (starts_with (b'/' ∷ []) rest)) [
    | inl double ↦ absurd (err_ne_ok (rw (slash, double) at h))
    | inr single ↦ (rest, ap (λ c. c ∷ rest) (sym ((==_iff b'/' b).0 slash)), single)
  ]
]

-- Every request goes to the target: its URL is `https://`, the target, and a path that begins with
-- one slash, which a script cannot turn into another authority.
pub prepare-target :
    (http : HeaderMaps) (client : Client http) (ctx : RequestCtx http) (request : BmcRequest)
    (outbound : Outbound http)
    → prepare http client ctx request ≡ ok outbound
    → (rest : Text) × (outbound.url ≡ lit "https://" ++ (socket_text ctx.target ++ b'/' ∷ rest))
      × (starts_with (lit "/") rest ≡ false)
unfolding prepare
prepare-target http client ctx request outbound sent =
    let (u, absolute, h1) = >>=-eq-ok (map_err refused (require_absolute request.path)) _ sent in
    let (method, parsed, h2) = >>=-eq-ok (ok_or _ (client.parse_method request.method)) _ h1 in
    let (rest, slash, single) =
      require_absolute-ok request.path (map_err-eq-ok refused _ absolute) in
    (
      rest,
      sym (ap (λ (o : Outbound http). o.url) (ok_injective h2))
          ∙ ap (λ (path : Text). lit "https://" ++ (socket_text ctx.target ++ path)) slash,
      single,
    )
