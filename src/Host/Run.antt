-- ===== src/Host/Run.antt =====
-- How a handler is run: `returned`, `execute` and `run_script` of src/rune_host.rs. Rune is a
-- parameter: how a call is begun and completed, in the context of the request, and what its value is.
pub mod Answers
pub mod Whole
use programmable_redfish_pro.Http.Address.{SocketAddrV4}
use programmable_redfish_pro.Prelude.{
  ℕ, Bool, Option, none, some, List, Text, Result, ok, err, map_err, ok_or, map_ok, ◌>>=◌,
}
use programmable_redfish_pro.Routes.{ProxyError, script_failed}
use programmable_redfish_pro.Http.Headers.{HeaderMaps}
use programmable_redfish_pro.Bmc.Context.{Parts, RequestCtx, Client, context}
use programmable_redfish_pro.Bmc.Request.{ScriptRequest, script_request}
use programmable_redfish_pro.Bmc.Forward.{Forwarded}
use programmable_redfish_pro.Host.{Machine, Scripts, unit_for}
use programmable_redfish_pro.Host.Response.{
  ScriptResponse, Response, finish_script_response, finish_forwarded,
}

-- Why a run failed.
pub data Reason : Type 0 where
  no_script : Text → Reason
  not_called not_completed handler_failed not_taken : Text → Reason
  no_response : Reason

pub record Failure : Type 0 where
  pub status : ℕ
  pub reason : Reason

unfoldable pub bad_gateway : Reason → Failure
bad_gateway reason = record { status = 502; reason = reason }

pub data TypeHash : Type 0 where
  script_response forwarded other : TypeHash

module _ (http : HeaderMaps) (client : Client http) (machine : Machine) where
  open client use {World, Stream}
  open machine use {Compiled}

  -- Rune, with the effects that a handler has on the BMC through the `bmc` module; `render` is what
  -- a value looks like in an error.
  pub record Rune : Type 1 where
    pub RuneValue : Type 0
    pub Execution : Type 0
    pub send_execute : Compiled → ScriptRequest → Result Text Execution
    pub complete : Execution → RequestCtx http → World → Result Text RuneValue × World
    pub as_result : RuneValue → Option (Result RuneValue RuneValue)
    pub type_hash : RuneValue → TypeHash
    pub take_script : RuneValue → Result Text ScriptResponse
    pub take_forwarded : RuneValue → Result Text (Forwarded http Stream)
    pub render : RuneValue → Text

  pub data Returned : Type 0 where
    of_script : ScriptResponse → Returned
    of_forwarded : Forwarded http Stream → Returned

  module _ (rune : Rune) where
    open rune use {
      RuneValue, Execution, send_execute, complete, as_result, type_hash, take_script,
      take_forwarded, render,
    }

    unfoldable pub unwrapped : RuneValue → Result Failure RuneValue
    unfolding bad_gateway
    unwrapped value = elim (as_result value) [
      | none ↦ ok value
      | some answer ↦ map_err (λ error. bad_gateway (handler_failed (render error))) answer
    ]

    unfoldable pub dispatched : RuneValue → Result Failure Returned
    unfolding bad_gateway
    dispatched value = elim (type_hash value) [
      | script_response ↦
          map_ok of_script (map_err (λ error. bad_gateway (not_taken error)) (take_script value))
      | forwarded ↦
          map_ok of_forwarded
            (map_err (λ error. bad_gateway (not_taken error)) (take_forwarded value))
      | other ↦ err (bad_gateway no_response)
    ]

    unfoldable pub returned : RuneValue → Result Failure Returned
    unfolding unwrapped dispatched
    returned value = do inner ← unwrapped value; dispatched inner

    unfoldable pub finish : Returned → Response http Stream
    unfolding finish_script_response finish_forwarded
    finish (of_script script) = finish_script_response http script
    finish (of_forwarded relayed) = finish_forwarded http relayed

    -- What `execute` makes of what the run ended with.
    unfoldable pub completed : Result Text RuneValue → Result Failure (Response http Stream)
    unfolding returned finish bad_gateway
    completed answer = do
      value ← map_err (λ error. bad_gateway (not_completed error)) answer
      result ← returned value
      ok (finish result)

    -- The call that `execute` begins.
    unfoldable pub begin :
        Scripts machine → (script : Text) → Parts http → (body : Text) → Result Failure Execution
    unfolding unit_for script_request bad_gateway
    begin scripts script parts body = do
      unit ← ok_or (bad_gateway (no_script script)) (unit_for machine scripts script)
      map_err (λ error. bad_gateway (not_called error))
          (send_execute unit (script_request http parts body))

    unfoldable pub execute :
        Scripts machine
        → (target : SocketAddrV4) → (base script : Text) → Parts http
        → (body : Text) → World
        → Result Failure (Response http Stream) × World
    unfolding begin completed context
    execute scripts target base script parts body w = elim (begin scripts script parts body) [
      | err failure ↦ (err failure, w)
      | ok execution ↦
          let (answer, w') = complete execution (context http target base parts body) w in
          (completed answer, w')
    ]

    -- `wording` is the message of a failure.
    unfoldable pub run_script :
        (wording : Reason → Text)
        → Scripts machine
        → (target : SocketAddrV4) → (base script : Text) → Parts http
        → (body : Text) → World
        → Result ProxyError (Response http Stream) × World
    unfolding execute
    run_script wording scripts target base script parts body w =
        let (answer, w') = execute scripts target base script parts body w in
        (map_err (λ failure. script_failed failure.status (wording failure.reason)) answer, w')
