-- ===== src/Examples/Math/WholeCalls.antt =====
-- examples/basic/: calls of the server that calculates, as the JSON client of examples/basic/client
-- makes them.
use go_reverse_rpc.Base.{
  ℕ, ℤ, ◌≡◌, refl, ap, ◌∙◌, true, false, none, some, List, [], ◌∷◌, Bytes, bytes_eq, ℕ_eq, lit,
  arith, All,
}
use go_reverse_rpc.Errors.{Error, message, Result, ok, err}
use go_reverse_rpc.Context.{new_request_context, ok_response, status_client_error}
use go_reverse_rpc.Server.{Telemetry}
use go_reverse_rpc.Server.Call.{left, Env, Move, run, call}
use go_reverse_rpc.Server.Call.Answers.{Fits}
use go_reverse_rpc.Topics.Paths.{IsSegment}
use go_reverse_rpc.Topics.Replies.{Lacks}
use go_reverse_rpc.Mqttpb.ClientCodec.{Propagator, injected}
use go_reverse_rpc.Mqttpb.Client.{CallEnd}
use go_reverse_rpc.Mqttpb.Server.{Published}
use go_reverse_rpc.Mqttpb.Server.Replies.{request_word}
use go_reverse_rpc.Mqttjson.Messages.{Json, Lawful}
use go_reverse_rpc.Mqttjson.Server.{RequestData, calls, receive, bind}
use go_reverse_rpc.Mqttjson.ClientCodec.{
  ClientCodec, write_request, read_response_header, read_response_body,
}
use go_reverse_rpc.Mqttjson.Client
use go_reverse_rpc.Mqttjson.Client.{create_rpc_client, new_client_codec}
use go_reverse_rpc.Mqttjson.Service.{Binding, deliver, child_context, new_mqtt_context, bind_params}
use go_reverse_rpc.Mqttjson.Service.Served.{child, replies_of}
use go_reverse_rpc.Mqttjson.Service.RpcCall.{received_request, json_rpc_call, json_rpc_call_error}
use go_reverse_rpc.Examples.Math.Calls.{
  Operation, method_name, calculated, responded, answer-math_server,
}
use go_reverse_rpc.Examples.Math.{MathRequest, Floats, math_server}
use go_reverse_rpc.Examples.Math.Topics.{reply_topic-math}

published_on :
    {topic topic' : Bytes} (outbox : List Published) (reply : Bytes)
    → topic ≡ topic'
    → record { topic = topic; qos = 0; retained = false; payload = reply } ∷ outbox
      ≡ record { topic = topic'; qos = 0; retained = false; payload = reply } ∷ outbox
published_on outbox reply e =
    ap
      (λ (topic : Bytes).
        record { topic = topic; qos = 0; retained = false; payload = reply } ∷ outbox)
      e

responded_ok :
    {F : Type 0} (floats : Floats F) (op : Operation) (req : MathRequest F) (x : F)
    (content : Bytes)
    → calculated floats op req ≡ ok x
    → floats.marshalled (record { result = x }) ≡ ok content
    → responded floats (calculated floats op req) ≡ ok_response (some (ok content))
responded_ok floats op req x content calc marshals = rw calc (rw marshals refl)

module _ {C W F : Type 0} (floats : Floats F) (json : Json) (law : Lawful json)
    (nil_result : Result Bytes) (propagator : Propagator C) (background : C) (binding : Binding)
    (uuid : Bytes) (cpus : ℤ) (noop : Telemetry W) (tel : Result (Telemetry W)) (env : Env)
    (moves : List Move) (w : W) (ctx : C) (id : Bytes) (ended : CallEnd) (seq : ℕ) (op : Operation)
    (params : Bytes) (c₁ : ClientCodec C) (payload : Bytes) (req : RequestData)
    (outbox : List Published) (segment : IsSegment id) (lacks : Lacks request_word id)
    (text : law.IsText (method_name op)) (params_json : law.IsJson params)
    (wrote : write_request json propagator
        (λ bytes. none)
        (record { service_method = method_name op; seq = seq })
        (ok params)
        (Client.call (lit "math") ctx (lit "server-01") id ended).1
      ≡ (ok payload, c₁))
    (got : receive json
        (record {
          topic = Client.request_topic (lit "math") (lit "server-01") id;
          retained = false;
          payload = payload;
        })
        outbox
      ≡ calls req)
    (fills : binding.unmarshal (some params) floats.target ≡ none)
    (valid : binding.validate (some params) floats.target ≡ none) (allowed : env.allow ≡ true)
    (fits : All (Fits false) moves)
    (over : (run (math_server floats uuid cpus noop tel) env moves (
        call
          (math_server floats uuid cpus noop tel)
          env
          (new_request_context (child json nil_result propagator background binding req))
          w)).caller
      ≡ left) where
  -- The client of the example calls an operation of the example's server, with an encoding that
  -- keeps the contract of encoding/json, an id for the topics that is one level without "request",
  -- and JSON as params, which fill the request variable and are valid. The server receives what the
  -- client wrote, its limiter lets the call through, and the handler is in time. If the operation
  -- has a result, which is marshalled to JSON, then when `Server.Call` has returned one message was
  -- published, on the response topic of the client, and from it the client's codec reads the method
  -- and the number of its call, no error, and that JSON.
  pub math_call :
      (x : F) (content : Bytes)
      → calculated floats op (floats.filled (some params)) ≡ ok x
      → floats.marshalled (record { result = x }) ≡ ok content
      → law.IsJson content
      → (reply : Bytes) × (deliver json nil_result req
            (replies_of json nil_result propagator background binding
              (math_server floats uuid cpus noop tel)
              env
              req
              moves
              w)
            outbox
          ≡ record {
            topic = Client.response_topic (lit "math") (lit "server-01") id;
            qos = 0;
            retained = false;
            payload = reply;
          }
            ∷ outbox)
        × (let (header, c₂) = read_response_header json propagator reply c₁ in
            (header ≡ ok (record { service_method = method_name op; seq = seq; error = [] }))
            × (read_response_body c₂ ≡ some content))
  unfolding Client.call create_rpc_client new_client_codec injected
  math_call x content calc marshals j =
      let (there, i, m, p, same) =
        received_request json law propagator (record { service_method = method_name op; seq = seq })
          params (Client.call (lit "math") ctx (lit "server-01") id ended).1 c₁
          (Client.request_topic (lit "math") (lit "server-01") id) payload req outbox text tt
          params_json wrote got in
      let (reply, sent, read) =
        json_rpc_call json law nil_result propagator background binding
          (math_server floats uuid cpus noop tel) env moves w
          (record { service_method = method_name op; seq = seq }) params
          (Client.call (lit "math") ctx (lit "server-01") id ended).1 c₁
          (Client.request_topic (lit "math") (lit "server-01") id) payload req outbox text tt
          params_json wrote got fits over floats.target content fills valid
          (λ c m b.
            answer-math_server floats uuid cpus noop tel env op (some params) c allowed m b
            ∙ ap some
                (responded_ok floats op (floats.filled (some params)) x content calc marshals))
          j in
      (reply, sent ∙ published_on outbox reply (reply_topic-math id req segment lacks there), read)

  -- The client of the example calls an operation of the example's server, as for `math_call`. If
  -- the operation has an error instead of a result, such as a division by zero, with a text in
  -- UTF-8, then when `Server.Call` has returned one message was published, on the response topic of
  -- the client, and from it the client's codec reads the method and the number of its call, and the
  -- error's text.
  pub math_call_error :
      (e : Error)
      → calculated floats op (floats.filled (some params)) ≡ err e
      → law.IsText (message e)
      → (reply : Bytes) × (deliver json nil_result req
            (replies_of json nil_result propagator background binding
              (math_server floats uuid cpus noop tel)
              env
              req
              moves
              w)
            outbox
          ≡ record {
            topic = Client.response_topic (lit "math") (lit "server-01") id;
            qos = 0;
            retained = false;
            payload = reply;
          }
            ∷ outbox)
        × ((read_response_header json propagator reply c₁).0
            ≡ ok (record { service_method = method_name op; seq = seq; error = message e }))
  unfolding Client.call create_rpc_client new_client_codec injected child_context new_mqtt_context
      bind_params bind
  math_call_error e calc t =
      let (there, i, m, p, same) =
        received_request json law propagator (record { service_method = method_name op; seq = seq })
          params (Client.call (lit "math") ctx (lit "server-01") id ended).1 c₁
          (Client.request_topic (lit "math") (lit "server-01") id) payload req outbox text tt
          params_json wrote got in
      let c = child json nil_result propagator background binding req in
      let (reply, sent, read) =
        json_rpc_call_error json law nil_result propagator background binding
          (math_server floats uuid cpus noop tel) env moves w
          (record { service_method = method_name op; seq = seq }) params
          (Client.call (lit "math") ctx (lit "server-01") id ended).1 c₁
          (Client.request_topic (lit "math") (lit "server-01") id) payload req outbox text tt
          params_json wrote got fits over status_client_error e
          (answer-math_server floats uuid cpus noop tel env op (some params) c allowed m
              (ground (arith, p, fills, valid))
            ∙ ap (λ r. some (responded floats r)) calc)
          t (λ n. ground (arith, n)) in
      (reply, sent ∙ published_on outbox reply (reply_topic-math id req segment lacks there), read)
