-- ===== src/Host/Response/Finished.antt =====
-- The headers that a caller gets.
use mathlib.Core.List.{append-nil, append_assoc}
use programmable_redfish_pro.Prelude.{
  ◌≡◌, refl, sym, ◌∙◌, ◌⊎◌, ap, Bool, true, false, not, Bool-cases, inl, inr, Option, none, some,
  Option-cases, List, [], ◌∷◌, ◌++◌, Text, lit, length, text_eq, text_eq_iff, if◌then◌else◌,
}
use programmable_redfish_pro.Http.Headers.{HeaderMaps, IsLawful}
use programmable_redfish_pro.Http.Headers.Copied.{kept}
use programmable_redfish_pro.Bmc.Forward.{ForwardedBody, buffered, streaming, Forwarded}
use programmable_redfish_pro.Host.Response.{
  ScriptResponse, is_forbidden, type_header, add_allowed, append_allowed, finish_script_response,
  finish_forwarded,
}

kept-nil : {A : Type 0} (b : Bool) → kept {A = A} b [] ≡ []
kept-nil true = refl
kept-nil false = refl

if-nested :
    {A : Type 0} (b : Bool) (x y z : A)
    → (if b then x else if b then y else z) ≡ (if b then x else z)
if-nested true x y z = refl
if-nested false x y z = refl

kept-append : {A : Type 0} (b : Bool) (xs ys : List A) → kept b xs ++ kept b ys ≡ kept b (xs ++ ys)
kept-append true xs ys = refl
kept-append false xs ys = refl

body-cases :
    {Stream : Type 0} (body : ForwardedBody Stream)
    → ((whole : Text) × (body ≡ buffered whole))
      ⊎ ((response : Stream) × (body ≡ streaming response))
body-cases (buffered whole) = inl (whole, refl)
body-cases (streaming response) = inr (response, refl)

module _ (http : HeaderMaps) (lawful : IsLawful http) where
  open http use {
    HeaderMap, HeaderValue, from_str, from_bytes, from_usize, new, append, insert, remove, get_all,
  }

  abbrev pub the : Option HeaderValue → List HeaderValue
  the (some v) = v ∷ []
  the none = []

  abbrev pub of_entry : Text → Option Text → Text → List HeaderValue
  of_entry n none value = []
  of_entry n (some key) value = if text_eq n key then the (from_str value) else []

  -- The valid values that a script has set under a name.
  unfoldable pub set_values : Text → List (Text × Text) → List HeaderValue
  set_values n [] = []
  set_values n ((name, value) ∷ more) = of_entry n (from_bytes name) value ++ set_values n more

  get_all-other :
      (name value : Text) (headers : HeaderMap) (key n : Text)
      → from_bytes name ≡ some key
      → text_eq n key ≡ false
      → get_all (add_allowed http name value headers) n ≡ get_all headers n
  unfolding add_allowed
  get_all-other name value headers key n named other = elim (Bool-cases (is_forbidden key)) [
    | inl stopped ↦ rw (add_allowed, named, stopped) refl
    | inr passes ↦ elim (Option-cases (from_str value)) [
      | inl no_value ↦ rw (add_allowed, named, passes, no_value) refl
      | inr (v, valid) ↦
          rw (add_allowed, named, passes, valid, lawful.get_all-append headers key v n, other) refl
    ]
  ]

  get_all-add_allowed :
      (name value : Text) (headers : HeaderMap) (n : Text)
      → get_all (add_allowed http name value headers) n
        ≡ get_all headers n ++ kept (not (is_forbidden n)) (of_entry n (from_bytes name) value)
  unfolding add_allowed
  get_all-add_allowed name value headers n = elim (Option-cases (from_bytes name)) [
    | inl no_name ↦
        rw (add_allowed, no_name, kept-nil (not (is_forbidden n)))
          (sym (append-nil (get_all headers n)))
    | inr (key, named) ↦ elim (Bool-cases (text_eq n key)) [
      | inr other ↦
          rw (named, other, kept-nil (not (is_forbidden n)), append-nil (get_all headers n))
            (get_all-other name value headers key n named other)
      | inl same ↦
          let one = (text_eq_iff n key).0 same in
          let also : is_forbidden n ≡ is_forbidden key = ap is_forbidden one in
          elim (Bool-cases (is_forbidden key)) [
            | inl stopped ↦
                rw (add_allowed, named, stopped, also, stopped)
                  (sym (append-nil (get_all headers n)))
            | inr passes ↦ elim (Option-cases (from_str value)) [
              | inl no_value ↦
                  rw (add_allowed, named, passes, also, passes, same, no_value)
                    (sym (append-nil (get_all headers n)))
              | inr (v, valid) ↦
                  rw
                    (
                      add_allowed,
                      named,
                      passes,
                      also,
                      passes,
                      same,
                      valid,
                      lawful.get_all-append headers key v n,
                      same,
                    )
                    refl
            ]
          ]
    ]
  ]

  get_all-append_allowed :
      (more : List (Text × Text)) (headers : HeaderMap) (n : Text)
      → get_all (append_allowed http more headers) n
        ≡ get_all headers n ++ kept (not (is_forbidden n)) (set_values n more)
  unfolding append_allowed set_values
  get_all-append_allowed [] headers n =
      rw (kept-nil (not (is_forbidden n))) (sym (append-nil (get_all headers n)))
  get_all-append_allowed ((name, value) ∷ more) headers n =
      let allowed = not (is_forbidden n) in
      let here = of_entry n (from_bytes name) value in
      get_all-append_allowed more (add_allowed http name value headers) n
      ∙ rw (get_all-add_allowed name value headers n) (
          append_assoc (get_all headers n) (kept allowed here) (kept allowed (set_values n more))
          ∙ ap (λ (vs : List HeaderValue). get_all headers n ++ vs)
              (kept-append allowed here (set_values n more)))

  get_all-type_header :
      (content_type n : Text)
      → get_all (type_header http content_type) n
        ≡ kept (text_eq n (lit "content-type")) (the (from_str content_type))
  unfolding type_header
  get_all-type_header content_type n = elim (Option-cases (from_str content_type)) [
    | inl invalid ↦
        rw (type_header, invalid, kept-nil (text_eq n (lit "content-type"))) (lawful.get_all-new n)
    | inr (value, valid) ↦
        rw
          (
            type_header,
            valid,
            lawful.get_all-insert new (lit "content-type") value n,
            lawful.get_all-new n,
          )
          refl
  ]

  -- What the caller gets of a response that a script has built, header by header: the length of the
  -- body, whatever the script set for it; the declared type; and what the script has set, but nothing
  -- of a credential or a hop-by-hop header.
  pub get_all-finish_script_response :
      (Stream : Type 0) (script : ScriptResponse) (n : Text)
      → get_all (finish_script_response http {Stream = Stream} script).headers n ≡ (
          if text_eq n (lit "content-length")
          then from_usize (length script.body) ∷ []
          else kept (text_eq n (lit "content-type")) (the (from_str script.content_type))
            ++ kept (not (is_forbidden n)) (set_values n script.headers))
  unfolding finish_script_response
  get_all-finish_script_response Stream script n =
      let typed = type_header http script.content_type in
      rw
        (
          lawful.get_all-insert (append_allowed http script.headers typed) (lit "content-length")
              (from_usize (length script.body)) n,
          get_all-append_allowed script.headers typed n,
          get_all-type_header script.content_type n,
        )
        refl

  -- The values under a name, with the length of a body that is held whole.
  abbrev pub forwarded_values :
      {Stream : Type 0} → ForwardedBody Stream → Text → List HeaderValue → List HeaderValue
  unfolding lit
  forwarded_values (buffered whole) n values =
      if text_eq n (lit "content-length") then from_usize (length whole) ∷ [] else values
  forwarded_values (streaming response) n values = values

  -- What the caller gets of a forwarded response, header by header: where the body is held whole, its
  -- length, once, whatever length the BMC gave; every other header, and every header of a body that
  -- streams, as it was.
  pub get_all-finish_forwarded :
      {Stream : Type 0} (forwarded : Forwarded http Stream) (n : Text)
      → get_all (finish_forwarded http forwarded).headers n
        ≡ forwarded_values forwarded.body n (get_all forwarded.headers n)
  unfolding finish_forwarded lit
  get_all-finish_forwarded forwarded n = elim (body-cases forwarded.body) [
    | inl (whole, held) ↦
        let length_header = lit "content-length" in
        rw
          (
            finish_forwarded,
            held,
            lawful.get_all-insert (remove forwarded.headers length_header) length_header
                (from_usize (length whole)) n,
            lawful.get_all-remove forwarded.headers length_header n,
          )
          (if-nested (text_eq n length_header) (from_usize (length whole) ∷ []) []
            (get_all forwarded.headers n))
    | inr (response, live) ↦ rw (finish_forwarded, live) refl
  ]
