-- ===== src/Http/Rewrite/Headers/Kept.antt =====
-- What the rewriting of headers makes of each header.
use mathlib.Core.List.{append-nil}
use programmable_redfish_pro.Http.Address.{SocketAddrV4}
use programmable_redfish_pro.Prelude.{
  ℕ, zero, suc, ◌≤◌, ◌≡◌, refl, sym, ◌∙◌, ap, true, false, Bool-cases, inl, inr, none, some, List,
  [], ◌∷◌, Text, text_eq, text_eq_iff, if◌then◌else◌, arith, Option-cases,
}
use programmable_redfish_pro.Http.{is_bmc_relative, is_url_header}
use programmable_redfish_pro.Http.Rewrite.{is_target}
use programmable_redfish_pro.Http.Swap.{trim_end_slashes}
use programmable_redfish_pro.Http.Swap.Total.{Swapped, swap_authorities_lem}
use programmable_redfish_pro.Http.Headers.{HeaderMaps, IsLawful, times, one_if_any}
use programmable_redfish_pro.Http.Headers.Copied.{get_all-append_all}
use programmable_redfish_pro.Http.Rewrite.Headers.{
  is_swapped, url_headers, rewrite_header_value, rewrite_header_values, put_back, rewrite_names,
  rewrite_headers,
}

times-url_headers :
    (n : Text) (names : List Text)
    → times n (url_headers names) ≡ (if is_url_header n then times n names else 0)
unfolding times url_headers
times-url_headers n [] = elim (Bool-cases (is_url_header n)) [
  | inl link ↦ rw link refl
  | inr plain ↦ rw plain refl
]
times-url_headers n (name ∷ names) = elim (Bool-cases (text_eq n name)) [
  | inl same ↦
      let here : is_url_header name ≡ is_url_header n =
        ap is_url_header (sym ((text_eq_iff n name).0 same)) in
      elim (Bool-cases (is_url_header n)) [
        | inl link ↦ rw (same, here, link, same, times-url_headers n names, link) refl
        | inr plain ↦ rw (same, here, plain, times-url_headers n names, plain) refl
      ]
  | inr other ↦ elim (Bool-cases (is_url_header name)) [
    | inl link ↦ rw (other, link, other) (times-url_headers n names)
    | inr plain ↦ rw (other, plain) (times-url_headers n names)
  ]
]

module _ (http : HeaderMaps) (target : SocketAddrV4) (base : Text) where
  open http use {HeaderMap, HeaderValue, to_str, from_str, get_all, remove, keys}

  -- What becomes of a value: one that is not text stays, as does one for which the new text is no
  -- header value; in any other the base stands for every URL whose authority is swapped.
  pub data RewrittenValue (name : Text) (value : HeaderValue) : HeaderValue → Type 0 where
    not_text : to_str value ≡ none → RewrittenValue name value value
    not_valid :
        {text swapped : Text}
        → to_str value ≡ some text
        → Swapped
            (trim_end_slashes base)
            (λ a. if is_bmc_relative name then true else is_target a target)
            text
            swapped
        → from_str swapped ≡ none
        → RewrittenValue name value value
    swaps :
        {text swapped : Text} {new_value : HeaderValue}
        → to_str value ≡ some text
        → Swapped
            (trim_end_slashes base)
            (λ a. if is_bmc_relative name then true else is_target a target)
            text
            swapped
        → from_str swapped ≡ some new_value
        → RewrittenValue name value new_value

  pub data RewrittenValues (name : Text) : List HeaderValue → List HeaderValue → Type 0 where
    no_values : RewrittenValues name [] []
    next_value :
        {value new_value : HeaderValue} {values new_values : List HeaderValue}
        → RewrittenValue name value new_value
        → RewrittenValues name values new_values
        → RewrittenValues name (value ∷ values) (new_value ∷ new_values)

  rewrite_header_value_lem :
      (name : Text) (value : HeaderValue)
      → (new_value : HeaderValue) × (rewrite_header_value http target base name value
          ≡ some new_value)
        × RewrittenValue name value new_value
  unfolding rewrite_header_value is_swapped
  rewrite_header_value_lem name value = elim (Option-cases (to_str value)) [
    | inl opaque' ↦ (value, rw (rewrite_header_value, opaque') refl, not_text opaque')
    | inr (text, readable) ↦
        let (swapped, done, swap) = swap_authorities_lem base text (is_swapped target name) in
        elim (Option-cases (from_str swapped)) [
          | inl refused ↦ (
            value,
            rw (rewrite_header_value, readable, done, refused) refl,
            not_valid readable swap refused,
          )
          | inr (new_value, valid) ↦ (
            new_value,
            rw (rewrite_header_value, readable, done, valid) refl,
            swaps readable swap valid,
          )
        ]
  ]

  rewrite_header_values_lem :
      (name : Text) (values : List HeaderValue)
      → (new_values : List HeaderValue) × (rewrite_header_values http target base name values
          ≡ some new_values)
        × RewrittenValues name values new_values
  unfolding rewrite_header_values
  rewrite_header_values_lem name [] = ([], refl, no_values)
  rewrite_header_values_lem name (value ∷ values) =
      let (first, done, one) = rewrite_header_value_lem name value in
      let (rest, more, all_others) = rewrite_header_values_lem name values in
      (first ∷ rest, rw (done, more) refl, next_value one all_others)

  no_values-eq :
      {name : Text} {values : List HeaderValue} → RewrittenValues name values [] → values ≡ []
  no_values-eq no_values = refl

  -- What becomes of the values under one name: those of a header that holds URLs are rewritten one
  -- by one, and those of every other header stay.
  pub data HeaderOutcome (name : Text) (values : List HeaderValue) : List HeaderValue → Type 0 where
    rewritten :
        {new_values : List HeaderValue}
        → is_url_header name ≡ true
        → RewrittenValues name values new_values
        → HeaderOutcome name values new_values
    untouched : is_url_header name ≡ false → HeaderOutcome name values values

  -- The outcome for a name that stands so many times in a list of names.
  abbrev Visited : ℕ → Text → List HeaderValue → List HeaderValue → Type 0
  Visited zero name values new_values = new_values ≡ values
  Visited (suc k) name values new_values = RewrittenValues name values new_values

  module _ (lawful : IsLawful http) where
    get_all-put_back :
        (name : Text) (values : List HeaderValue) (headers : HeaderMap) (n : Text)
        → RewrittenValues name (get_all headers name) values
        → get_all (put_back http target base name values headers) n
          ≡ (if text_eq n name then values else get_all headers n)
    get_all-put_back name [] headers n h = elim (Bool-cases (text_eq n name)) [
      | inl same ↦ rw same (ap (get_all headers) ((text_eq_iff n name).0 same) ∙ no_values-eq h)
      | inr other ↦ rw other refl
    ]
    get_all-put_back name (value ∷ values) headers n h = elim (Bool-cases (text_eq n name)) [
      | inl same ↦
          rw
            (
              get_all-append_all http lawful name (value ∷ values) (remove headers name) n,
              lawful.get_all-remove headers name n,
              same,
            )
            refl
      | inr other ↦
          rw
            (
              get_all-append_all http lawful name (value ∷ values) (remove headers name) n,
              lawful.get_all-remove headers name n,
              other,
            )
            (append-nil (get_all headers n))
    ]

    rewrite_names_lem :
        (names : List Text) (headers : HeaderMap) (n : Text)
        → times n names ≤ 1
        → (new_headers : HeaderMap) × (rewrite_names http target base names headers
            ≡ some new_headers)
          × Visited (times n names) n (get_all headers n) (get_all new_headers n)
    unfolding rewrite_names times
    rewrite_names_lem [] headers n h = (headers, refl, refl)
    rewrite_names_lem (name ∷ names) headers n h =
        let (values, done, each) = rewrite_header_values_lem name (get_all headers name) in
        let headers1 = put_back http target base name values headers in
        let put = get_all-put_back name values headers n each in
        elim (Bool-cases (text_eq n name)) [
          | inl same ↦
              let once : suc (times n names) ≤ 1 = rw (times, same) at h in
              let zero_more : times n names ≡ 0 = omega (arith, once) in
              let (new_headers, more, last) =
                rewrite_names_lem names headers1 n (omega (arith, zero_more)) in
              let last0 : get_all new_headers n ≡ get_all headers1 n = rw zero_more at last in
              let now : get_all new_headers n ≡ values = last0 ∙ (rw same at put) in
              let one : n ≡ name = (text_eq_iff n name).0 same in
              (new_headers, rw (rewrite_names, done) more, rw (times, same, now, one) each)
          | inr other ↦
              let fewer : times n names ≤ 1 = rw (times, other) at h in
              let (new_headers, more, last) = rewrite_names_lem names headers1 n fewer in
              let still : get_all headers1 n ≡ get_all headers n = rw other at put in
              (new_headers, rw (rewrite_names, done) more, rw (times, other) (rw still at last))
        ]

    one_if_any-le : {A : Type 0} (vs : List A) → one_if_any vs ≤ 1
    one_if_any-le [] = omega arith
    one_if_any-le (v ∷ vs) = omega arith

    link_outcome :
        (n : Text) (values new_values : List HeaderValue)
        → is_url_header n ≡ true
        → Visited (one_if_any values) n values new_values
        → HeaderOutcome n values new_values
    link_outcome n [] new_values link h = rewritten link (rw h no_values)
    link_outcome n (v ∷ values) new_values link h = rewritten link h

  -- Rewriting the headers always succeeds. Under the name of a header that holds URLs, each value has
  -- the base in place of every URL whose authority is swapped, and no other change; it stays
  -- where it is not text or the new text is no header value. Every other header stays.
  pub rewrite_headers_lem :
      IsLawful http
      → (headers : HeaderMap) (n : Text)
      → (new_headers : HeaderMap) × (rewrite_headers http target base headers ≡ some new_headers)
        × HeaderOutcome n (get_all headers n) (get_all new_headers n)
  unfolding rewrite_headers
  rewrite_headers_lem lawful headers n =
      let visits = times-url_headers n (keys headers) in
      let all_keys = lawful.times-keys headers n in
      elim (Bool-cases (is_url_header n)) [
        | inl link ↦
            let count : times n (url_headers (keys headers)) ≡ one_if_any (get_all headers n) =
              (rw link at visits) ∙ all_keys in
            let (new_headers, done, visited) =
              rewrite_names_lem lawful (url_headers (keys headers)) headers n
                (rw count (one_if_any-le lawful (get_all headers n))) in
            (new_headers, done, link_outcome lawful n _ _ link (rw count at visited))
        | inr plain ↦
            let none_left : times n (url_headers (keys headers)) ≡ 0 = rw plain at visits in
            let (new_headers, done, visited) =
              rewrite_names_lem lawful (url_headers (keys headers)) headers n
                (omega (arith, none_left)) in
            let same : get_all new_headers n ≡ get_all headers n = rw none_left at visited in
            (new_headers, done, rw same (untouched plain))
      ]
