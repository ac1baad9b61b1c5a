-- ===== src/Mqttpb/Service.antt =====
-- mqttpb/context.go and mqttpb/server.go: how a received request becomes a call of the server, and
-- how the replies of that call become messages.
pub mod Served
pub mod Received
pub mod Setup
pub mod Reading
pub mod RpcCall
use go_reverse_rpc.Base.{ℤ, Bool, false, Option, none, some, List, [], ◌∷◌, Bytes, lit}
use go_reverse_rpc.Base.Dict.{Dict}
use go_reverse_rpc.Context
use go_reverse_rpc.Context.{ChildContext, RequestContext, Outcome, new_request_context}
use go_reverse_rpc.Errors.{Result}
use go_reverse_rpc.Topics.{join}
use go_reverse_rpc.Compressor.{Algorithms}
use go_reverse_rpc.Compressor.Buffers.{Manager}
use go_reverse_rpc.Mqttpb.Messages.{Request, Response, Wire}
use go_reverse_rpc.Mqttpb.Server.{
  Value, proto_message, plain, RequestData, Transport, get_reply_topic, context_reply, bind,
}
use go_reverse_rpc.Mqttpb.ClientCodec.{Propagator}

-- The filter that `NewServer` subscribes to.
unfoldable pub subscribe_topic : Bytes → Bytes → Bytes
subscribe_topic prefix device_id = join (prefix ∷ device_id ∷ lit "request/+" ∷ [])

-- `MQTTContext`, over trace contexts `C`.
pub record MqttContext (C : Type 0) : Type 0 where
  pub req : RequestData
  pub ctx : C

-- The context of a request by its metadata; an empty map is nil.
unfoldable pub trace_context : {C : Type 0} → Propagator C → C → Dict Bytes Bytes → C
trace_context propagator background [] = background
trace_context propagator background (entry ∷ metadata) =
    propagator.extract background (entry ∷ metadata)

-- `NewMQTTContext`
unfoldable pub new_mqtt_context : {C : Type 0} → Propagator C → C → RequestData → MqttContext C
unfolding trace_context
new_mqtt_context propagator background req = record {
  req = req;
  ctx = trace_context propagator background req.request.metadata;
}

-- `Metadata`
unfoldable pub metadata : {C : Type 0} → MqttContext C → Dict Bytes Bytes
metadata c = c.req.request.metadata

-- `Encoding`
unfoldable pub encoding : {C : Type 0} → MqttContext C → ℤ
encoding c = c.req.request.encoding

-- A transport that has sent nothing.
abbrev pub idle : Transport
idle = record { manager = record { arrays = λ a. []; next = 0; buffer_pool = [] }; outbox = [] }

-- `MQTTContext.Bind`, of a target of any type.
unfoldable pub bind_value : RequestData → Value → Outcome (Result (Option Bytes))
unfolding bind
bind_value req (proto_message type_name marshalled) = bind req (some type_name)
bind_value req plain = bind req none

module _ (algorithms : Algorithms) (requests : Wire Request) (responses : Wire Response) where
  -- The methods of `MQTTContext`. What `Reply` returns does not depend on the transport
  -- (`Served.context_reply_same`); what it does to the transport is `deliver`.
  unfoldable pub child_context : {C : Type 0} → MqttContext C → ChildContext Value
  unfolding context_reply get_reply_topic bind_value
  child_context c = record {
    id = record { num = c.req.request.id; str = [] };
    method = c.req.request.method;
    reply_desc = get_reply_topic c.req;
    bind = bind_value c.req;
    reply = λ res. (context_reply algorithms requests responses c.req res idle).1;
  }

  -- The transport after the calls of `MQTTContext.Reply` that a request context records, the latest
  -- first.
  unfoldable pub deliver :
      RequestData → List (Option (Context.Response Value)) → Transport → Transport
  unfolding context_reply
  deliver req [] t = t
  deliver req (res ∷ sent) t =
      (context_reply algorithms requests responses req res (deliver req sent t)).0

  -- The request context that the callback of `initReceive` passes to `Server.Call`.
  unfoldable pub request_context :
      {C : Type 0} → Propagator C → C → RequestData → RequestContext Value
  unfolding new_mqtt_context child_context new_request_context
  request_context propagator background req =
      new_request_context (child_context (new_mqtt_context propagator background req))
