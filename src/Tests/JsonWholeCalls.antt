-- ===== src/Tests/JsonWholeCalls.antt =====
-- A whole JSON call to a server that answers with the params.
use go_reverse_rpc.Base.{
  ℕ, suc, ◌≡◌, ◌≢◌, refl, false, none, some, Option, [], ◌∷◌, Bytes, bytes_eq, ℕ_discrete, lit,
  arith, ℕ_eq,
}
use go_reverse_rpc.Base.Dict.{lookup}
use go_reverse_rpc.Errors.{Error, Result, ok}
use go_reverse_rpc.Context.{new_request_context}
use go_reverse_rpc.Server.Call.{run, call}
use go_reverse_rpc.Mqttpb.Client.{call_done}
use go_reverse_rpc.Mqttpb.ClientCodec.{injected}
use go_reverse_rpc.Mqttpb.Conn.{Conn, new_conn}
use go_reverse_rpc.Mqttpb.Conn.Whole.{ReadsWhole}
use go_reverse_rpc.Mqttjson.Messages.{Response}
use go_reverse_rpc.Mqttjson.Server.{RequestData, receive}
use go_reverse_rpc.Mqttjson.ClientCodec.{
  ClientCodec, write_request, read_response_header, read_response_body,
}
use go_reverse_rpc.Mqttjson.Client
use go_reverse_rpc.Mqttjson.Client.{create_rpc_client, dial, new_client_codec}
use go_reverse_rpc.Mqttjson.Service.{deliver, child_context, new_mqtt_context, bind_params}
use go_reverse_rpc.Mqttjson.Service.Served.{replies_of}
use go_reverse_rpc.Mqttjson.WholeCall.{json_whole_call}
use go_reverse_rpc.Tests.Objects.{json, json-Lawful, propagator, seven-Lacks}
use go_reverse_rpc.Tests.Calls.{env, in_time, in_time-Fits}
use go_reverse_rpc.Tests.JsonCalls.{
  permissive, target, echoing, echoing-AnswersCall, rpc_request, or_empty,
}
use go_reverse_rpc.Tests.Topics.{prefix, prefix-NoDots, dev-IsSegment, seven-IsSegment, base-Lacks}

json-texts : (res : Response) → json.encode_response res ≢ ok []
json-texts res e = ground arith

-- What `Client.Call` sets up.
abbrev made : Conn × ClientCodec ℕ × Option Error
made = Client.call prefix 5 (lit "dev") (lit "7") (call_done none)

abbrev written : Result Bytes × ClientCodec ℕ
written = write_request json propagator (λ bytes. none) rpc_request (ok (lit "17")) made.1

abbrev called : RequestData
called = record {
  topic = Client.request_topic prefix (lit "dev") (lit "7");
  request = record { id = 4; method = lit "add"; metadata = []; params = some (lit "17") };
}

json_whole_call_example :
    (reply : Bytes) × (deliver json
        (ok (lit "null"))
        called
        (replies_of json (ok (lit "null")) propagator 0 permissive echoing env called in_time 0)
        []
      ≡ record { topic = made.0.response_topic; qos = 0; retained = false; payload = reply } ∷ [])
    × ReadsWhole made.0 suc reply
    × (let (header, c₂) = read_response_header json propagator reply written.1 in
        (header ≡ ok (record { service_method = lit "add"; seq = 4; error = [] }))
        × (read_response_body c₂ ≡ some (lit "17")))
unfolding json-Lawful injected write_request receive echoing run call new_request_context
    child_context new_mqtt_context bind_params lookup bytes_eq ℕ_discrete Client.call
    create_rpc_client dial new_client_codec new_conn
json_whole_call_example =
    json_whole_call json json-Lawful (ok (lit "null")) propagator 0 permissive echoing env in_time 0
      rpc_request (lit "17") written.1 (or_empty written.0) called [] prefix (lit "dev") (lit "7") 5
      (call_done none) target (lit "17") suc prefix-NoDots dev-IsSegment seven-IsSegment base-Lacks
      seven-Lacks (λ j. omega arith) json-texts tt tt refl refl in_time-Fits refl refl refl
      echoing-AnswersCall tt
