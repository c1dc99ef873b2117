-- ===== src/Bmc/Forward/Rewritten.antt =====
-- Every outcome of `.rewrite()` of src/script_bmc.rs on a body that is declared JSON.
use mathlib.Core.Path.{subst}
use programmable_redfish_pro.Prelude.{
  ℕ, ◌≡◌, sym, ◌∙◌, true, inl, inr, Option, some, ◌∷◌, Text, Result, ok, err, Result-cases,
}
use programmable_redfish_pro.Json.{Value}
use programmable_redfish_pro.Http.Body.{Codec, json_content_type, rewrite_json}
use programmable_redfish_pro.Http.Headers.{HeaderMaps, IsLawful}
use programmable_redfish_pro.Http.Relay.{content_type, is_json}
use programmable_redfish_pro.Http.Rewrite.Values.{Rewritten, rewrite_value_lem}
use programmable_redfish_pro.Http.Rewrite.Headers.{rewrite_response}
use programmable_redfish_pro.Http.Rewrite.Headers.Kept.{HeaderOutcome, rewrite_headers_lem}
use programmable_redfish_pro.Bmc.Context.{RequestCtx, Client}
use programmable_redfish_pro.Bmc.Request.{CallError, not_rewritten}
use programmable_redfish_pro.Bmc.Forward.{buffered, Forwarded, rewrite}
use programmable_redfish_pro.Bmc.Forward.Leak.{content_type-rewrite_headers}

module _ (http : HeaderMaps) (client : Client http) (codec : Codec) (ctx : RequestCtx http) where
  open http use {HeaderMap, get_all}

  -- What becomes of a response with that status, those headers and that body.
  pub data RewriteOutcome (status : ℕ) (headers : HeaderMap) (body : Text)
      : Result CallError (Forwarded http client.Stream) → Type 0 where
    -- The body is no JSON.
    unread :
        {error : Text}
        → codec.from_slice body ≡ err error
        → RewriteOutcome status headers body (err not_rewritten)
    -- The rewritten document is not encoded.
    unencoded :
        {value new_value : Value} {error : Text}
        → codec.from_slice body ≡ ok value
        → Rewritten ctx.target ctx.base value new_value
        → codec.to_vec new_value ≡ err error
        → RewriteOutcome status headers body (err not_rewritten)
    -- Headers and body are rewritten.
    rewrote :
        {value new_value : Value} {new_headers : HeaderMap} {new_body : Text}
        → ((n : Text)
            → HeaderOutcome http ctx.target ctx.base n (get_all headers n) (get_all new_headers n))
        → codec.from_slice body ≡ ok value
        → Rewritten ctx.target ctx.base value new_value
        → codec.to_vec new_value ≡ ok new_body
        → RewriteOutcome status headers body
            (ok (record { status = status; headers = new_headers; body = buffered new_body }))

  some_injective : {v w : HeaderMap} → ◌≡◌ {A = Option HeaderMap} (some v) (some w) → v ≡ w
  some_injective h = cc

  -- What `.rewrite()` makes of a response that declares JSON and holds a body, which is not empty, in
  -- every case. It fails exactly where the body is no JSON or the new document is not encoded.
  -- Otherwise the status stays, every header is what rewriting makes of it, and the body encodes the
  -- document that was read with the base in place of every URL of the BMC in its strings, and
  -- nothing else changed.
  pub rewrite_lem :
      IsLawful http
      → (status x : ℕ) (headers : HeaderMap) (body : Text) → is_json http headers ≡ true
      → RewriteOutcome status headers (x ∷ body) (
          rewrite http client codec ctx
            (record { status = status; headers = headers; body = buffered (x ∷ body) }))
  unfolding rewrite rewrite_response rewrite_json is_json
  rewrite_lem lawful status x headers body declared =
      let (new_headers, done, same) =
        content_type-rewrite_headers http lawful ctx.target ctx.base headers in
      let still : json_content_type (content_type http new_headers) ≡ true = rw same declared in
      let each : (n : Text)
          → HeaderOutcome http ctx.target ctx.base n (get_all headers n) (get_all new_headers n) =
        λ n.
          let (others, done', outcome) =
            rewrite_headers_lem http ctx.target ctx.base lawful headers n in
          subst
            (λ (h : HeaderMap).
              HeaderOutcome http ctx.target ctx.base n (get_all headers n) (get_all h n))
            (some_injective (sym done' ∙ done)) outcome in
      elim (Result-cases (codec.from_slice (x ∷ body))) [
        | inr (error, failed) ↦
            rw (rewrite, rewrite_response, done, rewrite_json, still, failed) (unread failed)
        | inl (value, read) ↦
            let (new_value, made, changed) = rewrite_value_lem ctx.target ctx.base value in
            elim (Result-cases (codec.to_vec new_value)) [
              | inr (error, failed) ↦
                  rw (rewrite, rewrite_response, done, rewrite_json, still, read, made, failed)
                    (unencoded read changed failed)
              | inl (new_body, encoded) ↦
                  rw (rewrite, rewrite_response, done, rewrite_json, still, read, made, encoded)
                    (rewrote each read changed encoded)
            ]
      ]
