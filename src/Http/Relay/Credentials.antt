-- ===== src/Http/Relay/Credentials.antt =====
-- What is relayed of a request or a response, and what of it reaches the log.
use programmable_redfish_pro.Prelude.{
  ℕ, ◌+◌, ◌&&◌, leb, ◌≡◌, refl, ◌∙◌, ap, true, List, [], ◌∷◌, ◌++◌, map, Text, if◌then◌else◌, arith,
}
use programmable_redfish_pro.DeepPath.{to_ascii_lowercase}
use programmable_redfish_pro.Http.{is_redacted}
use programmable_redfish_pro.Http.Headers.{HeaderMaps, IsLawful}
use programmable_redfish_pro.Http.Headers.Copied.{kept, get_all-append_kept}
use programmable_redfish_pro.Http.Relay.{
  is_end_to_end, copy_end_to_end, redact_entry, redact_headers,
}

lower_byte_idempotent :
    (b : ℕ)
    → ◌≡◌ {A = ℕ}
        (let c = (if leb b'A' b && leb b b'Z' then b + 32 else b) in
          if leb b'A' c && leb c b'Z' then c + 32 else c)
        (if leb b'A' b && leb b b'Z' then b + 32 else b)
lower_byte_idempotent b = ground arith

pub to_ascii_lowercase_idempotent :
    (s : Text) → to_ascii_lowercase (to_ascii_lowercase s) ≡ to_ascii_lowercase s
to_ascii_lowercase_idempotent [] = refl
to_ascii_lowercase_idempotent (b ∷ s) =
    rw (lower_byte_idempotent b, to_ascii_lowercase_idempotent s) refl

-- Whether a header is a credential does not depend on the case of its name.
pub is_redacted-lower : (name : Text) → is_redacted (to_ascii_lowercase name) ≡ is_redacted name
unfolding is_redacted
is_redacted-lower name = rw (to_ascii_lowercase_idempotent name) refl

module _ (http : HeaderMaps) where
  open http use {HeaderMap, HeaderValue, get_all, iter}

  -- After the copy every name holds what it held, then all that the source has under it, in the
  -- order of the source; but nothing of a hop-by-hop header, of `host` and of `accept-encoding`.
  pub get_all-copy_end_to_end :
      IsLawful http
      → (source dest : HeaderMap) (name : Text)
      → get_all (copy_end_to_end http source dest) name
        ≡ get_all dest name ++ kept (is_end_to_end name) (get_all source name)
  unfolding copy_end_to_end
  get_all-copy_end_to_end lawful source dest name =
      get_all-append_kept http lawful is_end_to_end (iter source) dest name
      ∙ ap (λ (vs : List HeaderValue). get_all dest name ++ kept (is_end_to_end name) vs)
          (lawful.values_of-iter source name)

  -- The same headers, but for the values of credentials.
  pub data Alike : List (Text × HeaderValue) → List (Text × HeaderValue) → Type 0 where
    both_empty : Alike [] []
    same_entry :
        (name : Text) (value : HeaderValue) {es fs : List (Text × HeaderValue)}
        → Alike es fs
        → Alike ((name, value) ∷ es) ((name, value) ∷ fs)
    other_credential :
        (name : Text) (value other : HeaderValue) {es fs : List (Text × HeaderValue)}
        → is_redacted name ≡ true
        → Alike es fs
        → Alike ((name, value) ∷ es) ((name, other) ∷ fs)

  redact_entry-credential :
      (name : Text) (value other : HeaderValue)
      → is_redacted name ≡ true
      → redact_entry http (name, value) ≡ redact_entry http (name, other)
  unfolding redact_entry
  redact_entry-credential name value other h =
      let lower : is_redacted (to_ascii_lowercase name) ≡ true = is_redacted-lower name ∙ h in
      rw lower refl

  map-Alike :
      {es fs : List (Text × HeaderValue)}
      → Alike es fs
      → map (redact_entry http) es ≡ map (redact_entry http) fs
  map-Alike both_empty = refl
  map-Alike (same_entry name value rest) =
      ap (λ l. redact_entry http (name, value) ∷ l) (map-Alike rest)
  map-Alike (other_credential name value other h rest) =
      rw (redact_entry-credential name value other h, map-Alike rest) refl

  -- What is logged of headers does not depend on the value of any credential.
  pub redact_headers-Alike :
      (headers others : HeaderMap)
      → Alike (iter headers) (iter others)
      → redact_headers http headers ≡ redact_headers http others
  unfolding redact_headers
  redact_headers-Alike headers others alike = map-Alike alike
