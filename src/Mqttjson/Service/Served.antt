-- ===== src/Mqttjson/Service/Served.antt =====
-- A request that the JSON server serves, up to what the client reads.
use go_reverse_rpc.Base.{
  ℤ, ◌≡◌, ◌≢◌, refl, true, false, Option, none, some, List, [], ◌∷◌, Bytes, bytes_eq, ℕ_eq, arith,
  All,
}
use go_reverse_rpc.Errors.{Error, message, Result, ok}
use go_reverse_rpc.Context
use go_reverse_rpc.Context.{
  returned, ChildContext, new_request_context, error_response, ok_response, status_ok,
}
use go_reverse_rpc.Server.{Server}
use go_reverse_rpc.Server.Call.{left, Env, Move, run, call}
use go_reverse_rpc.Server.Call.Answers.{answer, Fits}
use go_reverse_rpc.Server.Call.InTime.{Transmits, run_in_time}
use go_reverse_rpc.Mqttpb.Server.{Published}
use go_reverse_rpc.Mqttpb.ClientCodec.{Propagator}
use go_reverse_rpc.Mqttjson.Messages.{Json, Lawful}
use go_reverse_rpc.Mqttjson.Server.{RequestData, context_reply}
use go_reverse_rpc.Mqttjson.ClientCodec.{ClientCodec}
use go_reverse_rpc.Mqttjson.ClientCodec.Replies.{Delivers, json_reply_error, json_reply_ok}
use go_reverse_rpc.Mqttjson.Service.{Binding, child_context, deliver, new_mqtt_context}

module _ {C : Type 0} (json : Json) (nil_result : Result Bytes) (propagator : Propagator C)
    (background : C) (binding : Binding) where
  -- What `MQTTContext.Reply` returns is the same whatever was published before.
  context_reply_same :
      (req : RequestData) (res : Option (Context.Response (Result Bytes)))
      (outbox before : List Published)
      → (context_reply json nil_result req res outbox).1
        ≡ (context_reply json nil_result req res before).1
  unfolding context_reply
  context_reply_same req none outbox before = refl
  context_reply_same req (some res) outbox before = ground arith

  abbrev pub child : RequestData → ChildContext (Result Bytes)
  child req = child_context json nil_result (new_mqtt_context propagator background binding req)

  child-Transmits :
      (req : RequestData) (r : Context.Response (Result Bytes))
      → (context_reply json nil_result req (some r) []).1 ≡ returned true
      → Transmits (child req) r
  unfolding child_context new_mqtt_context
  child-Transmits req r e = (true, e)

  deliver-one :
      (req : RequestData) (sent : List (Option (Context.Response (Result Bytes))))
      (res : Option (Context.Response (Result Bytes))) (outbox : List Published)
      → sent ≡ res ∷ []
      → deliver json nil_result req sent outbox ≡ (context_reply json nil_result req res outbox).0
  unfolding deliver
  deliver-one req sent res outbox e = rw e refl

  module _ {W : Type 0} (s : Server (Result Bytes) W) (env : Env) (req : RequestData)
      (moves : List Move) (w : W) where
    -- The replies of the request's call, under a schedule.
    abbrev pub replies_of : List (Option (Context.Response (Result Bytes)))
    replies_of = (run s env moves (call s env (new_request_context (child req)) w)).ctx.sent

    module _ (law : Lawful json) (c : ClientCodec C) (outbox : List Published)
        (fits : All (Fits false) moves)
        (over : (run s env moves (call s env (new_request_context (child req)) w)).caller ≡ left)
        (text : law.IsText req.request.method) where
      pub json_served_error :
          (status : ℤ) (e : Error)
          → answer s env (child req) ≡ some (error_response status e)
          → law.IsText (message e)
          → status ≢ status_ok
          → Delivers json law propagator req outbox
              (deliver json nil_result req replies_of outbox)
              c
              (json.error_object (message e))
              (message e)
      json_served_error status e a t n =
          let answers = json_reply_error json law propagator nil_result req status e in
          let one =
            run_in_time s env (child req) (error_response status e) moves w
              (child-Transmits req _ (answers [] c text t n).0) a fits over in
          rw (deliver-one req _ _ outbox one.0) (answers outbox c text t n).1

      pub json_served_ok :
          (content : Bytes)
          → answer s env (child req) ≡ some (ok_response (some (ok content)))
          → law.IsJson content
          → Delivers json law propagator req outbox
              (deliver json nil_result req replies_of outbox)
              c
              content
              []
      json_served_ok content a j =
          let answers = json_reply_ok json law propagator nil_result req content in
          let one =
            run_in_time s env (child req) _ moves w (child-Transmits req _ (answers [] c text j).0)
              a fits over in
          rw (deliver-one req _ _ outbox one.0) (answers outbox c text j).1
