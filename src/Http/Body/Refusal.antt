-- ===== src/Http/Body/Refusal.antt =====
-- When a body is left as it is.
use mathlib.Core.Path.{subst}
use programmable_redfish_pro.Http.Address.{SocketAddrV4}
use programmable_redfish_pro.Prelude.{
  ℕ, ◌≡◌, sym, ◌∙◌, true, Option, some, ◌∷◌, Text, ok, ok_or, map_err, >>=-eq-ok, ok_injective,
  map_err-eq-ok, ok_or-eq-ok,
}
use programmable_redfish_pro.Json.{Value}
use programmable_redfish_pro.Http.Rewrite.{rewrite_value}
use programmable_redfish_pro.Http.Rewrite.Values.{Rewritten, rewrite_value_lem}
use programmable_redfish_pro.Http.Body.{Codec, panicked, json_content_type, rewrite_json}

-- What a body has become: read, rewritten and encoded again.
pub record Replaced (codec : Codec) (target : SocketAddrV4) (base body new_body : Text)
    : Type 0 where
  pub value : Value
  pub rewritten : Value
  pub read : codec.from_slice body ≡ ok value
  pub rewrote : rewrite_value target base value ≡ some rewritten
  pub changed : Rewritten target base value rewritten
  pub encoded : codec.to_vec rewritten ≡ ok new_body

some_injective : {v w : Value} → ◌≡◌ {A = Option Value} (some v) (some w) → v ≡ w
some_injective h = cc

module _ (codec : Codec) (target : SocketAddrV4) (base : Text) (content_type : Option Text) (x : ℕ)
    (body : Text) (declared : json_content_type content_type ≡ true) where
  -- A body that is declared JSON and is not empty is never passed on as it is: where the rewrite
  -- succeeds, it was read, rewritten, and encoded again.
  pub rewrite_json-declared :
      (result : Option Text)
      → rewrite_json codec target base content_type (x ∷ body) ≡ ok result
      → (new_body : Text) × (result ≡ some new_body)
        × Replaced codec target base (x ∷ body) new_body
  unfolding rewrite_json
  rewrite_json-declared result h =
      let (value, parsed, h1) =
        >>=-eq-ok (map_err _ (codec.from_slice (x ∷ body))) _ (rw (rewrite_json, declared) at h) in
      let (w, done, same) = rewrite_value_lem target base value in
      let (w', kept, h2) = >>=-eq-ok (ok_or panicked (rewrite_value target base value)) _ h1 in
      let (new_body, sent, h3) = >>=-eq-ok (map_err _ (codec.to_vec w')) _ h2 in
      let e : w ≡ w' = some_injective (sym done ∙ ok_or-eq-ok panicked _ kept) in
      (
        new_body,
        sym (ok_injective h3),
        record {
          value = value;
          rewritten = w';
          read = map_err-eq-ok _ (codec.from_slice (x ∷ body)) parsed;
          rewrote = ok_or-eq-ok panicked _ kept;
          changed = subst (Rewritten target base value) e same;
          encoded = map_err-eq-ok _ (codec.to_vec w') sent;
        },
      )
