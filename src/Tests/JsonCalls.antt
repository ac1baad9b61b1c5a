-- ===== src/Tests/JsonCalls.antt =====
-- JSON calls of a method that answers with its params, and of one that the server does not know.
use go_reverse_rpc.Base.{
  ℕ, pos, ◌≡◌, ◌≢◌, refl, false, none, some, Option, [], ◌∷◌, Bytes, bytes_eq, ℕ_discrete, lit,
  arith, ℕ_eq,
}
use go_reverse_rpc.Base.Dict.{lookup, insert}
use go_reverse_rpc.Errors.{unhandled_method, message, Result, ok, err}
use go_reverse_rpc.Context.{
  Outcome, returned, panicked, new_request_context, ok_response, error_response,
}
use go_reverse_rpc.Server.{Program, returns, replies, Server, new_server, register}
use go_reverse_rpc.Server.Call.{left, run, call}
use go_reverse_rpc.Server.Call.Answers.{answer}
use go_reverse_rpc.Mqttpb.ClientCodec.{RpcRequest, injected}
use go_reverse_rpc.Mqttjson.Server.{RequestData, calls, receive, reply_topic}
use go_reverse_rpc.Mqttjson.ClientCodec.{ClientCodec, write_request, read_response_header}
use go_reverse_rpc.Mqttjson.Service.{Binding, deliver, child_context, new_mqtt_context}
use go_reverse_rpc.Mqttjson.Service.Served.{child, replies_of}
use go_reverse_rpc.Mqttjson.Service.RpcCall.{AnswersCall, json_rpc_call_error}
use go_reverse_rpc.Tests.Objects.{json, json-Lawful, propagator, client}
use go_reverse_rpc.Tests.Calls.{env}
use go_reverse_rpc.Tests.Service.{quiet, alone}

abbrev pub permissive : Binding
permissive = record { unmarshal = λ params target. none; validate = λ params target. none }

abbrev pub or_null : Option Bytes → Bytes
or_null none = lit "null"
or_null (some content) = content

abbrev pub echo : Outcome (Result (Option Bytes)) → Program (Result Bytes)
echo (returned (ok params)) =
    replies (some (ok_response (some (ok (or_null params))))) (λ sent. returns)
echo (returned (err e)) = replies (some (error_response (pos 400) e)) (λ sent. returns)
echo (panicked value) = returns

abbrev pub target : Result Bytes
target = ok (lit "0")

unfoldable pub echoing : Server (Result Bytes) ℕ
unfolding new_server register insert
echoing =
    register (lit "add") (record { method = λ ctx. echo (ctx.bind target); timeout = pos 0 })
      (new_server (lit "id") (pos 4) quiet [])

bare : Server (Result Bytes) ℕ
unfolding new_server
bare = new_server (lit "id") (pos 4) quiet []

pub echoing-AnswersCall : AnswersCall echoing env (lit "add") (lit "17") target (lit "17")
unfolding echoing lookup bytes_eq ℕ_discrete
echoing-AnswersCall ctx m b = rw m (rw b refl)

abbrev pub rpc_request : RpcRequest
rpc_request = record { service_method = lit "add"; seq = 4 }

abbrev written : Result Bytes × ClientCodec ℕ
written = write_request json propagator (λ bytes. none) rpc_request (ok (lit "17")) client

abbrev pub or_empty : Result Bytes → Bytes
or_empty (ok bytes) = bytes
or_empty (err e) = []

abbrev sent : Bytes
sent = or_empty written.0

abbrev called : RequestData
called = record {
  topic = lit "dev/request/7";
  request = record { id = 4; method = lit "add"; metadata = []; params = some (lit "17") };
}

written-sent : written ≡ (ok sent, written.1)
unfolding write_request
written-sent = refl

received-called :
    receive json (record { topic = lit "dev/request/7"; retained = false; payload = sent }) []
    ≡ calls called
unfolding receive write_request
received-called = refl

bare-left :
    (run bare env alone (
      call bare env
        (new_request_context (child json (ok (lit "null")) propagator 0 permissive called))
        0)).caller
    ≡ left
unfolding bare run call new_request_context child_context new_mqtt_context lookup bytes_eq
    ℕ_discrete
bare-left = refl

bare-answers :
    answer bare env (child json (ok (lit "null")) propagator 0 permissive called)
    ≡ some (error_response (pos 500) (unhandled_method (lit "add")))
unfolding bare child_context new_mqtt_context lookup bytes_eq ℕ_discrete
bare-answers = refl

server_error : pos 500 ≢ pos 200
server_error e = ground arith

json_rpc_call_error_example :
    (reply : Bytes) × (deliver json
        (ok (lit "null"))
        called
        (replies_of json (ok (lit "null")) propagator 0 permissive bare env called alone 0)
        []
      ≡ record { topic = reply_topic called; qos = 0; retained = false; payload = reply } ∷ [])
    × ((read_response_header json propagator reply written.1).0
        ≡ ok (record {
          service_method = lit "add";
          seq = 4;
          error = message (unhandled_method (lit "add"));
        }))
unfolding json-Lawful injected
json_rpc_call_error_example =
    json_rpc_call_error json json-Lawful (ok (lit "null")) propagator 0 permissive bare env alone 0
      rpc_request (lit "17") client written.1 (lit "dev/request/7") sent called [] tt tt tt
      written-sent received-called (tt, (tt, (tt, (tt, (tt, (tt, tt)))))) bare-left (pos 500)
      (unhandled_method (lit "add")) bare-answers tt server_error
