-- ===== src/Examples/Running.antt =====
-- Handlers that are run, and what the caller gets of them.
use programmable_redfish_pro.Prelude.{
  ◌≡◌, refl, true, not, if◌then◌else◌, none, some, [], ◌∷◌, ◌++◌, Text, lit, text_eq, starts_with,
  ok, err, map_err,
}
use programmable_redfish_pro.Routes.{choose_script, matches, handle}
use programmable_redfish_pro.Http.Headers.{values_of}
use programmable_redfish_pro.Http.Headers.Copied.{kept}
use programmable_redfish_pro.Http.Headers.Listed.{listed, listed-IsLawful}
use programmable_redfish_pro.Http.Relay.Credentials.{both_empty}
use programmable_redfish_pro.Bmc.Context.{context}
use programmable_redfish_pro.Bmc.Forward.{buffered, Forwarded}
use programmable_redfish_pro.Host.{unit_for, load_for}
use programmable_redfish_pro.Host.Response.{
  ScriptResponse, finish_script_response, finish_forwarded, is_forbidden,
}
use programmable_redfish_pro.Host.Response.Finished.{
  the, set_values, get_all-finish_script_response, get_all-finish_forwarded, forwarded_values,
}
use programmable_redfish_pro.Host.Run.{
  script_response, Rune, Reason, begin, bad_gateway, not_called, run_script,
}
use programmable_redfish_pro.Host.Run.Answers.{Outcome, run_script_lem}
use programmable_redfish_pro.Host.Run.Whole.{
  HasErrorStatus, handle-HasErrorStatus, begin-choose_script,
}
use programmable_redfish_pro.Logging.{log_request, log_forwarded}
use programmable_redfish_pro.Logging.Credentials.{log_request-Alike}
use programmable_redfish_pro.Examples.Relaying.{
  echo, parts_of, target, base_url, ctx_of, other_secret,
}
use programmable_redfish_pro.Examples.Routing.{
  prefixes, configs, built_router, builds, scripts_at_hand, rune_config, compiled,
}

-- A response that tries to set a cookie of its own and a length that is wrong.
abbrev built : ScriptResponse
built = record {
  status = 200;
  content_type = lit "text/plain";
  body = lit "hello";
  headers =
      (lit "Authorization", lit "forged")
      ∷ (lit "Content-Length", lit "7")
      ∷ (lit "etag", lit "1")
      ∷ [];
}

-- Every handler answers with that.
abbrev constant : Rune listed echo scripts_at_hand
constant = record {
  RuneValue = ScriptResponse;
  Execution = Unit;
  send_execute = λ unit request. ok tt;
  complete = λ execution ctx w. (ok built, w);
  as_result = λ value. none;
  type_hash = λ value. script_response;
  take_script = λ value. ok value;
  take_forwarded = λ value. err [];
  render = λ value. [];
}

abbrev no_words : Reason → Text
no_words reason = []

get_all-finish_script_response_example :
    values_of (lit "content-length") (finish_script_response listed {Stream = Text} built).headers
    ≡ (if text_eq (lit "content-length") (lit "content-length")
        then (5 ∷ []) ∷ []
        else kept
            (text_eq (lit "content-length") (lit "content-type"))
            (the listed listed-IsLawful (some (lit "text/plain")))
          ++ kept
              (not (is_forbidden (lit "content-length")))
              (set_values listed listed-IsLawful (lit "content-length") built.headers))
unfolding lit
get_all-finish_script_response_example =
    get_all-finish_script_response listed listed-IsLawful Text built (lit "content-length")

-- The reply to a HEAD request, which says how long the resource is and holds nothing.
abbrev head_reply : Forwarded listed Text
head_reply = record {
  status = 200;
  headers = (lit "content-length", lit "42") ∷ (lit "etag", lit "x") ∷ [];
  body = buffered [];
}

get_all-finish_forwarded_example :
    values_of (lit "content-length") (finish_forwarded listed head_reply).headers
    ≡ forwarded_values listed listed-IsLawful {Stream = Text}
        (buffered [])
        (lit "content-length")
        (values_of (lit "content-length") head_reply.headers)
get_all-finish_forwarded_example =
    get_all-finish_forwarded listed listed-IsLawful {Stream = Text} head_reply
      (lit "content-length")

run_script_lem_example :
    Outcome listed echo scripts_at_hand constant compiled
      (context listed target base_url (parts_of (lit "secret")) [])
      (lit "get.rn")
      tt
      (run_script listed echo scripts_at_hand constant no_words compiled target base_url
        (lit "get.rn")
        (parts_of (lit "secret"))
        []
        tt)
run_script_lem_example =
    run_script_lem listed echo scripts_at_hand constant no_words compiled target base_url
      (lit "get.rn") (parts_of (lit "secret")) [] tt

handle-HasErrorStatus_example : HasErrorStatus (
    handle
      (λ script bytes.
        (run_script listed echo scripts_at_hand constant no_words compiled target base_url script
          (parts_of (lit "secret"))
          bytes
          tt).0)
      built_router
      (lit "default.rn")
      (lit "GET")
      (lit "/redfish/v1")
      (ok []))
handle-HasErrorStatus_example =
    handle-HasErrorStatus listed echo scripts_at_hand constant no_words compiled target base_url
      built_router (lit "default.rn") (parts_of (lit "secret")) (ok []) tt

begin-choose_script_example :
    (unit : Text) × (unit_for scripts_at_hand compiled (lit "default.rn") ≡ some unit)
    × (begin listed echo scripts_at_hand constant compiled
          (lit "default.rn")
          (parts_of (lit "secret"))
          []
        ≡ map_err (λ error. bad_gateway (not_called error)) (ok tt))
unfolding load_for choose_script matches lit text_eq starts_with
begin-choose_script_example =
    begin-choose_script listed echo scripts_at_hand constant prefixes rune_config configs
      built_router (some (lit "scripts")) compiled (parts_of (lit "secret")) [] (lit "default.rn")
      builds refl refl

abbrev reply_text : Forwarded listed Text
reply_text = record { status = 200; headers = []; body = buffered (lit "hello") }

log_request-Alike_example :
    (log_request listed (ctx_of (lit "secret")) (lit "info") true
      ≡ log_request listed (ctx_of (lit "guess")) (lit "info") true)
    × (log_forwarded listed (ctx_of (lit "secret")) reply_text (lit "info") true
        ≡ log_forwarded listed (ctx_of (lit "guess")) reply_text (lit "info") true)
unfolding context
log_request-Alike_example =
    log_request-Alike listed (ctx_of (lit "secret")) (ctx_of (lit "guess")) reply_text reply_text
      (lit "info") true other_secret refl refl refl refl both_empty refl refl
