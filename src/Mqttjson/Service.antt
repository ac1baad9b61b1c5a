-- ===== src/Mqttjson/Service.antt =====
-- mqttjson/context.go and mqttjson/server.go: how a received request becomes a call of the server,
-- and how the replies of that call become messages.
pub mod Served
pub mod Payloads
pub mod RpcCall
pub mod Setup
use go_reverse_rpc.Base.{Option, none, some, List, [], ◌∷◌, Bytes, lit}
use go_reverse_rpc.Errors.{Error, Result, ok, err}
use go_reverse_rpc.Context
use go_reverse_rpc.Context.{ChildContext, RequestContext, Outcome, returned, new_request_context}
use go_reverse_rpc.Topics.{join}
use go_reverse_rpc.Mqttpb.Server.{Published}
use go_reverse_rpc.Mqttpb.ClientCodec.{Propagator}
use go_reverse_rpc.Mqttpb.Service.{trace_context}
use go_reverse_rpc.Mqttjson.Messages.{Json}
use go_reverse_rpc.Mqttjson.Server.{RequestData, reply_topic, context_reply, bind}

-- The filter that `NewServer` subscribes to.
unfoldable pub subscribe_topic : Bytes → Bytes → Bytes
subscribe_topic prefix device_id = join (prefix ∷ device_id ∷ lit "request/+" ∷ [])

-- What `json.Unmarshal` and the validator say of the params and a target.
pub record Binding : Type 0 where
  pub unmarshal : Option Bytes → Result Bytes → Option Error
  pub validate : Option Bytes → Result Bytes → Option Error

-- `MQTTContext`, over trace contexts `C`.
pub record MqttContext (C : Type 0) : Type 0 where
  pub req : RequestData
  pub binding : Binding
  pub ctx : C

-- `NewMQTTContext`
unfoldable pub new_mqtt_context :
    {C : Type 0} → Propagator C → C → Binding → RequestData → MqttContext C
unfolding trace_context
new_mqtt_context propagator background binding req = record {
  req = req;
  binding = binding;
  ctx = trace_context propagator background req.request.metadata;
}

abbrev bound : Option Bytes → Option Error → Result (Option Bytes)
bound params none = ok params
bound params (some e) = err e

-- `MQTTContext.Bind`: the params, if they fill the target.
unfoldable pub bind_params : Binding → RequestData → Result Bytes → Outcome (Result (Option Bytes))
unfolding bind
bind_params binding req target =
    let params = req.request.params in
    returned
      (bound params (bind (binding.unmarshal params target) (binding.validate params target)))

module _ (json : Json) (nil_result : Result Bytes) where
  -- The methods of `MQTTContext`. What `Reply` returns does not depend on what was published before
  -- (`Served.context_reply_same`); what it publishes is in `deliver`.
  unfoldable pub child_context : {C : Type 0} → MqttContext C → ChildContext (Result Bytes)
  unfolding context_reply reply_topic bind_params
  child_context c = record {
    id = record { num = c.req.request.id; str = [] };
    method = c.req.request.method;
    reply_desc = reply_topic c.req;
    bind = bind_params c.binding c.req;
    reply = λ res. (context_reply json nil_result c.req res []).1;
  }

  -- What is published after the calls of `MQTTContext.Reply` that a request context records, the
  -- latest first.
  unfoldable pub deliver :
      RequestData
      → List (Option (Context.Response (Result Bytes)))
      → List Published
      → List Published
  unfolding context_reply
  deliver req [] outbox = outbox
  deliver req (res ∷ sent) outbox =
      (context_reply json nil_result req res (deliver req sent outbox)).0

  -- The request context that the callback of `initReceive` passes to `Server.Call`.
  unfoldable pub request_context :
      {C : Type 0} → Propagator C → C → Binding → RequestData → RequestContext (Result Bytes)
  unfolding new_mqtt_context child_context new_request_context
  request_context propagator background binding req =
      new_request_context (child_context (new_mqtt_context propagator background binding req))
