-- ===== src/Host/Run/Whole.antt =====
-- `handle` of src/proxy.rs with the run of the script that src/rune_host.rs gives it.
use programmable_redfish_pro.Http.Address.{SocketAddrV4}
use programmable_redfish_pro.Prelude.{
  ℕ, ◌≢◌, ◌≡◌, refl, sym, ◌∙◌, inl, inr, true, false, Bool-cases, Option, some, Option-cases, List,
  Text, Result, ok, err, Result-cases, map_err,
}
use programmable_redfish_pro.Routes.{
  Globs, RouteConfig, Router, ProxyError, status, choose_script, resolve, claims_path, build,
  handle,
}
use programmable_redfish_pro.Http.Headers.{HeaderMaps}
use programmable_redfish_pro.Bmc.Context.{Parts, RequestCtx, Client}
use programmable_redfish_pro.Bmc.Request.{script_request}
use programmable_redfish_pro.Host.{Machine, Scripts, RuneConfig, unit_for, has_unit, load_for}
use programmable_redfish_pro.Host.Startup.{load_for-choose_script}
use programmable_redfish_pro.Host.Response.{Response}
use programmable_redfish_pro.Host.Run.{Reason, not_called, bad_gateway, Rune, begin, run_script}
use programmable_redfish_pro.Host.Run.Answers.{Outcome, answered, failed, run_script_lem}

-- The statuses of the errors that the proxy itself answers with.
pub data ErrorStatus : ℕ → Type 0 where
  unread_body : ErrorStatus 400
  wrong_method : ErrorStatus 405
  failed_script : ErrorStatus 502

abbrev pub HasErrorStatus : {A : Type 0} → Result ProxyError A → Type 0
HasErrorStatus (ok response) = Unit
HasErrorStatus (err error) = ErrorStatus (status error)

choose_script-HasErrorStatus :
    (router : Router) (default_script method path : Text)
    → HasErrorStatus (choose_script router default_script method path)
unfolding choose_script status
choose_script-HasErrorStatus router default_script method path =
    elim (Option-cases (resolve router method path)) [
      | inr (route, e) ↦ rw (choose_script, e) tt
      | inl e ↦ elim (Bool-cases (claims_path router path)) [
        | inl claimed ↦ rw (choose_script, e, claimed) wrong_method
        | inr free ↦ rw (choose_script, e, free) tt
      ]
    ]

true_ne_false : true ≢ false
true_ne_false h = cc

module _ (http : HeaderMaps) (client : Client http) (machine : Machine)
    (rune : Rune http client machine) where
  open client use {World, Stream}

  Outcome-HasErrorStatus :
      {scripts : Scripts machine} {ctx : RequestCtx http} {script : Text} {w : World}
      {answer : Result ProxyError (Response http Stream) × World}
      → Outcome http client machine rune scripts ctx script w answer
      → HasErrorStatus answer.0
  unfolding status
  Outcome-HasErrorStatus (answered run) = tt
  Outcome-HasErrorStatus (failed message w') = failed_script

  -- Every request that the proxy refuses itself is refused with 400, 405 or 502.
  pub handle-HasErrorStatus :
      (wording : Reason → Text) (scripts : Scripts machine) (target : SocketAddrV4) (base : Text)
      (router : Router) (default_script : Text) (parts : Parts http) (body : Result Text Text)
      (w : World)
      → HasErrorStatus (
          handle
            (λ script bytes.
              (run_script http client machine rune wording scripts target base script parts bytes
                w).0)
            router
            default_script
            parts.method
            parts.path
            body)
  unfolding handle status
  handle-HasErrorStatus wording scripts target base router default_script parts (err e) w =
      unread_body
  handle-HasErrorStatus wording scripts target base router default_script parts (ok bytes) w =
      let refusal = choose_script-HasErrorStatus router default_script parts.method parts.path in
      elim (Result-cases (choose_script router default_script parts.method parts.path)) [
        | inr (error, e) ↦ rw e (rw e at refusal)
        | inl (script, e) ↦ rw e (
            Outcome-HasErrorStatus (
              run_script_lem http client machine rune wording scripts target base script parts bytes
                w))
      ]

  found_unit :
      (scripts : Scripts machine) (script : Text)
      → has_unit machine scripts script ≡ true
      → (unit : machine.Compiled) × (unit_for machine scripts script ≡ some unit)
  found_unit scripts script there = elim (Option-cases (unit_for machine scripts script)) [
    | inr (unit, e) ↦ (unit, e)
    | inl e ↦ absurd (true_ne_false (sym there ∙ rw (has_unit, e) refl))
  ]

  -- Where the router was built and the scripts were loaded from one configuration, a request that is
  -- given a script is given to a handler: the script is there, and is called with the request.
  pub begin-choose_script :
      (globs : Globs) (config : RuneConfig) (routes : List RouteConfig) (router : Router)
      (dir : Option Text) (scripts : Scripts machine) (parts : Parts http) (body script : Text)
      → build globs routes ≡ ok router
      → load_for machine config routes ≡ ok (dir, scripts)
      → choose_script router config.default_script parts.method parts.path ≡ ok script
      → (unit : machine.Compiled) × (unit_for machine scripts script ≡ some unit)
        × (begin http client machine rune scripts script parts body
            ≡ map_err
                (λ error. bad_gateway (not_called error))
                (rune.send_execute unit (script_request http parts body)))
  unfolding begin
  begin-choose_script globs config routes router dir scripts parts body script built load chosen =
      let there =
        load_for-choose_script machine globs config routes router dir scripts parts.method
          parts.path script built load chosen in
      let (unit, found) = found_unit scripts script there in (unit, found, rw (begin, found) refl)
