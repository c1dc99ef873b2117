-- ===== src/Host/Run/Answers.antt =====
-- What a request can be answered.
use programmable_redfish_pro.Http.Address.{SocketAddrV4}
use programmable_redfish_pro.Prelude.{
  ◌≡◌, refl, ap, ◌⊎◌, inl, inr, some, Option-cases, Text, Result, ok, err, Result-cases, map_err,
  map_ok,
}
use programmable_redfish_pro.Routes.{ProxyError, script_failed}
use programmable_redfish_pro.Http.Headers.{HeaderMaps}
use programmable_redfish_pro.Bmc.Context.{Parts, RequestCtx, Client, context}
use programmable_redfish_pro.Bmc.Request.{script_request}
use programmable_redfish_pro.Host.{Machine, Scripts, unit_for}
use programmable_redfish_pro.Host.Response.{Response}
use programmable_redfish_pro.Host.Run.{
  Reason, not_taken, of_script, of_forwarded, TypeHash, script_response, forwarded, other, Failure,
  bad_gateway, Rune, Returned, unwrapped, dispatched, returned, finish, completed, begin, execute,
  run_script,
}

-- Where it failed, the caller is told of a bad gateway.
abbrev IsBadGateway : {A : Type 0} → Result Failure A → Type 0
IsBadGateway (ok a) = Unit
IsBadGateway (err failure) = failure.status ≡ 502

map_err-IsBadGateway :
    {A : Type 0} (f : Text → Reason) (r : Result Text A)
    → IsBadGateway (map_err (λ error. bad_gateway (f error)) r)
unfolding bad_gateway
map_err-IsBadGateway f (ok a) = tt
map_err-IsBadGateway f (err error) = refl

map_ok-IsBadGateway :
    {A B : Type 0} (f : A → B) (r : Result Failure A) → IsBadGateway r → IsBadGateway (map_ok f r)
map_ok-IsBadGateway f (ok a) h = tt
map_ok-IsBadGateway f (err failure) h = h

module _ (http : HeaderMaps) (client : Client http) (machine : Machine)
    (rune : Rune http client machine) where
  open client use {World, Stream}
  open rune use {RuneValue, Execution, send_execute, complete}

  -- What the answer of a handler that was run comes to.
  pub data Ran (scripts : Scripts machine) (ctx : RequestCtx http) (script : Text) (w : World)
      : Response http Stream → World → Type 0 where
    ran :
        {unit : machine.Compiled} {execution : Execution} {value : RuneValue} {w' : World}
        {result : Returned http client machine}
        → unit_for machine scripts script ≡ some unit
        → send_execute unit (script_request http ctx.parts ctx.body) ≡ ok execution
        → complete execution ctx w ≡ (ok value, w')
        → returned http client machine rune value ≡ ok result
        → Ran scripts ctx script w (finish http client machine rune result) w'

  -- A request is answered with what its handler returned, or refused with 502.
  pub data Outcome (scripts : Scripts machine) (ctx : RequestCtx http) (script : Text) (w : World)
      : Result ProxyError (Response http Stream) × World → Type 0 where
    answered :
        {response : Response http Stream} {w' : World}
        → Ran scripts ctx script w response w'
        → Outcome scripts ctx script w (ok response, w')
    failed :
        (message : Text) (w' : World)
        → Outcome scripts ctx script w (err (script_failed 502 message), w')

  unwrapped-IsBadGateway :
      (value : RuneValue) → IsBadGateway (unwrapped http client machine rune value)
  unfolding unwrapped bad_gateway
  unwrapped-IsBadGateway value = elim (Option-cases (rune.as_result value)) [
    | inl plain ↦ rw (unwrapped, plain) tt
    | inr (ok inner, e) ↦ rw (unwrapped, e) tt
    | inr (err error, e) ↦ rw (unwrapped, e) refl
  ]

  hash-cases : (h : TypeHash) → (h ≡ script_response) ⊎ ((h ≡ forwarded) ⊎ (h ≡ other))
  hash-cases script_response = inl refl
  hash-cases forwarded = inr (inl refl)
  hash-cases other = inr (inr refl)

  dispatched-IsBadGateway :
      (value : RuneValue) → IsBadGateway (dispatched http client machine rune value)
  unfolding dispatched bad_gateway
  dispatched-IsBadGateway value = elim (hash-cases (rune.type_hash value)) [
    | inl e ↦
        rw (dispatched, e)
          (map_ok-IsBadGateway of_script _
            (map_err-IsBadGateway not_taken (rune.take_script value)))
    | inr (inl e) ↦
        rw (dispatched, e)
          (map_ok-IsBadGateway of_forwarded _
            (map_err-IsBadGateway not_taken (rune.take_forwarded value)))
    | inr (inr e) ↦ rw (dispatched, e) refl
  ]

  returned-IsBadGateway :
      (value : RuneValue) → IsBadGateway (returned http client machine rune value)
  unfolding returned
  returned-IsBadGateway value = elim (Result-cases (unwrapped http client machine rune value)) [
    | inl (inner, e) ↦ rw (returned, e) (dispatched-IsBadGateway inner)
    | inr (failure, e) ↦ rw (returned, e) (let bad = unwrapped-IsBadGateway value in rw e at bad)
  ]

  -- The answer after a handler was run to its end.
  completed_lem :
      (wording : Reason → Text) (scripts : Scripts machine) (target : SocketAddrV4)
      (base script : Text) (parts : Parts http) (body : Text) (w : World) {unit : machine.Compiled}
      {execution : Execution}
      → unit_for machine scripts script ≡ some unit
      → send_execute unit (script_request http parts body) ≡ ok execution
      → let ctx = context http target base parts body in
        let done = complete execution ctx w in
        Outcome scripts ctx script w (
          map_err
              (λ failure. script_failed failure.status (wording failure.reason))
              (completed http client machine rune done.0),
          done.1,
        )
  unfolding completed context bad_gateway
  completed_lem wording scripts target base script parts body w {unit} {execution} found begun =
      let ctx = context http target base parts body in
      let done = complete execution ctx w in
      elim (Result-cases done.0) [
        | inr (error, stopped) ↦ rw (completed, stopped) (failed _ done.1)
        | inl (value, ended) ↦ elim (Result-cases (returned http client machine rune value)) [
          | inl (result, is_response) ↦
              rw (completed, ended, is_response)
                (answered (ran found begun (ap (λ a. (a, done.1)) ended) is_response))
          | inr (failure, is_none) ↦
              let bad = returned-IsBadGateway value in
              let status502 : failure.status ≡ 502 = rw is_none at bad in
              rw (completed, ended, is_none, status502) (failed _ done.1)
        ]
      ]

  -- A request is answered with what the handler of its script has returned after it was run in the
  -- context of that request, or refused with 502; in no other way.
  pub run_script_lem :
      (wording : Reason → Text) (scripts : Scripts machine) (target : SocketAddrV4)
      (base script : Text) (parts : Parts http) (body : Text) (w : World)
      → Outcome scripts
          (context http target base parts body)
          script
          w
          (run_script http client machine rune wording scripts target base script parts body w)
  unfolding run_script execute begin bad_gateway
  run_script_lem wording scripts target base script parts body w =
      elim (Option-cases (unit_for machine scripts script)) [
        | inl missing ↦ rw (run_script, execute, begin, missing) (failed _ w)
        | inr (unit, found) ↦
            elim (Result-cases (send_execute unit (script_request http parts body))) [
              | inr (error, refused) ↦ rw (run_script, execute, begin, found, refused) (failed _ w)
              | inl (execution, begun) ↦
                  rw (run_script, execute, begin, found, begun)
                    (completed_lem wording scripts target base script parts body w found begun)
            ]
      ]
