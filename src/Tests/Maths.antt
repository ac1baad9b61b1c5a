-- ===== src/Tests/Maths.antt =====
-- Divisions by the server that calculates.
use go_reverse_rpc.Base.{
  ℕ, zero, suc, ◌+◌, ◌-◌, ◌*◌, ◌/◌, pos, ◌≡◌, refl, Bool, true, false, none, some, Option, [], ◌∷◌,
  Bytes, bytes_eq, ℕ_discrete, lit, ℕ_eq,
}
use go_reverse_rpc.Base.Dict.{lookup, insert}
use go_reverse_rpc.Errors.{Result, ok, err, other, message}
use go_reverse_rpc.Context.{new_request_context}
use go_reverse_rpc.Server.{new_server, register, set_telemetry}
use go_reverse_rpc.Server.Call.{run, call}
use go_reverse_rpc.Mqttpb.Client.{call_done}
use go_reverse_rpc.Mqttpb.ClientCodec.{injected}
use go_reverse_rpc.Mqttjson.Server.{RequestData, receive}
use go_reverse_rpc.Mqttjson.ClientCodec.{
  ClientCodec, write_request, read_response_header, read_response_body,
}
use go_reverse_rpc.Mqttjson.Client
use go_reverse_rpc.Mqttjson.Client.{create_rpc_client, new_client_codec}
use go_reverse_rpc.Mqttjson.Service.{deliver, child_context, new_mqtt_context, bind_params}
use go_reverse_rpc.Mqttjson.Service.Served.{replies_of}
use go_reverse_rpc.Examples.Math.{
  MathRequest, Floats, math_server, register_math_operations, math_handler, with_request,
  divide_program, reply_result, reply_client_error,
}
use go_reverse_rpc.Examples.Math.Calls.{division}
use go_reverse_rpc.Examples.Math.WholeCalls.{math_call, math_call_error}
use go_reverse_rpc.Tests.Objects.{json, json-Lawful, propagator, seven-Lacks}
use go_reverse_rpc.Tests.Calls.{env, in_time, in_time-Fits}
use go_reverse_rpc.Tests.JsonCalls.{permissive}
use go_reverse_rpc.Tests.Service.{quiet}
use go_reverse_rpc.Tests.Topics.{seven-IsSegment}

-- Two bytes are a request.
abbrev filled : Option Bytes → MathRequest ℕ
filled (some (a ∷ b ∷ _)) = record { a = a; b = b }
filled _ = record { a = 0; b = 0 }

abbrev is_zero : ℕ → Bool
is_zero zero = true
is_zero (suc n) = false

-- Natural numbers in the place of floats.
abbrev naturals : Floats ℕ
naturals = record {
  add = λ a b. a + b;
  subtract = λ a b. a - b;
  multiply = λ a b. a * b;
  divide = λ a b. a / b;
  is_zero = is_zero;
  target = ok [];
  filled = filled;
  marshalled = λ res. ok (res.result ∷ []);
}

abbrev written : Bytes → Result Bytes × ClientCodec ℕ
written params =
    write_request json propagator (λ bytes. none)
      (record { service_method = lit "divide"; seq = 0 }) (ok params)
      (Client.call (lit "math") 5 (lit "server-01") (lit "7") (call_done none)).1

abbrev or_empty : Result Bytes → Bytes
or_empty (ok bytes) = bytes
or_empty (err e) = []

abbrev called : Bytes → RequestData
called params = record {
  topic = Client.request_topic (lit "math") (lit "server-01") (lit "7");
  request = record { id = 0; method = lit "divide"; metadata = []; params = some params };
}

abbrev halves : Bytes
halves = 10 ∷ 2 ∷ []

abbrev by_zero : Bytes
by_zero = 10 ∷ 0 ∷ []

math_call_example :
    (reply : Bytes) × (deliver json
        (ok (lit "null"))
        (called halves)
        (replies_of json
          (ok (lit "null"))
          propagator
          0
          permissive
          (math_server naturals (lit "id") (pos 4) quiet (ok quiet))
          env
          (called halves)
          in_time
          0)
        []
      ≡ record {
        topic = Client.response_topic (lit "math") (lit "server-01") (lit "7");
        qos = 0;
        retained = false;
        payload = reply;
      }
        ∷ [])
    × (let (header, c₂) = read_response_header json propagator reply (written halves).1 in
        (header ≡ ok (record { service_method = lit "divide"; seq = 0; error = [] }))
        × (read_response_body c₂ ≡ some (5 ∷ [])))
unfolding json-Lawful injected write_request receive math_server register_math_operations register
    insert lookup bytes_eq ℕ_discrete math_handler with_request reply_result reply_client_error
    divide_program new_server set_telemetry run call new_request_context child_context
    new_mqtt_context bind_params Client.call create_rpc_client new_client_codec
math_call_example =
    math_call naturals json json-Lawful (ok (lit "null")) propagator 0 permissive (lit "id") (pos 4)
      quiet (ok quiet) env in_time 0 5 (lit "7") (call_done none) 0 division halves
      (written halves).1 (or_empty (written halves).0) (called halves) [] seven-IsSegment
      seven-Lacks tt tt refl refl refl refl refl in_time-Fits refl 5 (5 ∷ []) refl refl tt

math_call_error_example :
    (reply : Bytes) × (deliver json
        (ok (lit "null"))
        (called by_zero)
        (replies_of json
          (ok (lit "null"))
          propagator
          0
          permissive
          (math_server naturals (lit "id") (pos 4) quiet (err (other [])))
          env
          (called by_zero)
          in_time
          0)
        []
      ≡ record {
        topic = Client.response_topic (lit "math") (lit "server-01") (lit "7");
        qos = 0;
        retained = false;
        payload = reply;
      }
        ∷ [])
    × ((read_response_header json propagator reply (written by_zero).1).0
        ≡ ok (record { service_method = lit "divide"; seq = 0; error = lit "division by zero" }))
unfolding json-Lawful injected write_request receive math_server register_math_operations register
    insert lookup bytes_eq ℕ_discrete math_handler with_request reply_result reply_client_error
    divide_program new_server set_telemetry run call new_request_context child_context
    new_mqtt_context bind_params Client.call create_rpc_client new_client_codec message
math_call_error_example =
    math_call_error naturals json json-Lawful (ok (lit "null")) propagator 0 permissive (lit "id")
      (pos 4) quiet (err (other [])) env in_time 0 5 (lit "7") (call_done none) 0 division by_zero
      (written by_zero).1 (or_empty (written by_zero).0) (called by_zero) [] seven-IsSegment
      seven-Lacks tt tt refl refl refl refl refl in_time-Fits refl (other (lit "division by zero"))
      refl tt
