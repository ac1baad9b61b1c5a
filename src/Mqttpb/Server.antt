-- ===== src/Mqttpb/Server.antt =====
-- mqttpb/server.go and mqttpb/context.go: requests that arrive by MQTT, and their replies.
pub mod Replies
pub mod Bounds
use go_reverse_rpc.Base.{
  ℕ, ℤ, ◌≡◌, Bool, true, false, Option, none, some, List, [], ◌∷◌, Bytes, lit, bytes_eq, ◌==◌,
  if◌then◌else◌,
}
use go_reverse_rpc.Base.Int.{ℤ, pos, int32}
use go_reverse_rpc.Errors.{
  Error, message, retained_message, request_not_proto, type_not_found, Result, ok, err,
}
use go_reverse_rpc.Context
use go_reverse_rpc.Context.{
  Outcome, returned, panicked, ChildContext, Identifier, status_ok, default_qos,
}
use go_reverse_rpc.Topics.{replace_first}
use go_reverse_rpc.Compressor.{Algorithms}
use go_reverse_rpc.Compressor.Buffers.{Manager}
use go_reverse_rpc.Mqttpb.Messages.{
  Any, Request, Response, empty_request, Wire, Marshalled, done, failed,
}
use go_reverse_rpc.Mqttpb.Codec.{marshal_response, unmarshal_request, to_result}

-- `interface{}` results: a protobuf message by the name of its Go type and what `proto.Marshal`
-- makes of it, or any other value.
pub data Value : Type 0 where
  proto_message : Bytes → Marshalled → Value
  plain : Value

pub record RequestData : Type 0 where
  pub topic : Bytes
  pub request : Request

pub record ResponseData : Type 0 where
  pub topic : Bytes
  pub response : Response

-- A call of the adapter's `PublishBytes`.
pub record Published : Type 0 where
  pub topic : Bytes
  pub qos : ℕ
  pub retained : Bool
  pub payload : Bytes

-- The codec's compressor, and what was published, the latest first.
pub record Transport : Type 0 where
  pub manager : Manager
  pub outbox : List Published

pub record Message : Type 0 where
  pub topic : Bytes
  pub retained : Bool
  pub payload : Bytes

abbrev pub nil_dereference : Bytes
nil_dereference = lit "invalid memory address or nil pointer dereference"

-- `strings.Replace(r.Topic, "request", "response", 1)`
unfoldable pub get_reply_topic : RequestData → Bytes
get_reply_topic r = replace_first (lit "request") (lit "response") r.topic

unfoldable pub get_response : RequestData → ResponseData
get_response r = record {
  topic = get_reply_topic r;
  response = record {
    id = r.request.id;
    status = pos 0;
    error_message = [];
    encoding = r.request.encoding;
    metadata = [];
    body = none;
  };
}

-- `none` is the nil that a failure of `proto.Marshal` leads to.
unfoldable pub make_ok_response : RequestData → Bytes → Marshalled → Option ResponseData
unfolding get_response
make_ok_response r type_name (failed e) = none
make_ok_response r type_name (done d) =
    let res = get_response r in
    some (record res {
      response = record (res.response) {
        status = status_ok;
        body = some (record { type_url = type_name; value = some d });
      };
    })

unfoldable pub make_err_response : RequestData → ℤ → Error → ResponseData
unfolding get_response
make_err_response r status e =
    let res = get_response r in
    record res {
      response = record (res.response) { status = int32 status; error_message = message e };
    }

module _ (algorithms : Algorithms) (requests : Wire Request) (responses : Wire Response) where
  unfoldable pub publish : Bytes → Result Bytes → List Published → List Published
  publish topic (err e) outbox = outbox
  publish topic (ok bytes) outbox =
      record { topic = topic; qos = default_qos; retained = false; payload = bytes } ∷ outbox

  -- `Server.reply`; its error is dropped by every caller.
  unfoldable pub reply : ResponseData → Transport → Transport
  unfolding publish
  reply res t =
      let (result, manager) = marshal_response algorithms responses res.response t.manager in
      record { manager = manager; outbox = publish res.topic result t.outbox }

  -- `reply` of what may be nil: `res.Status` panics.
  unfoldable pub reply_pointer : Option ResponseData → Transport → Transport × Outcome Bool
  unfolding reply
  reply_pointer none t = (t, panicked nil_dereference)
  reply_pointer (some res) t = (reply res t, returned true)

  -- The type and the bytes of what a result is sent as.
  abbrev pub result_message : Option Value → Bytes × Marshalled
  result_message (some (proto_message type_name marshalled)) = (type_name, marshalled)
  result_message _ = (lit "*emptypb.Empty", done [])

  -- `MQTTContext.Reply`
  unfoldable pub context_reply :
      RequestData → Option (Context.Response Value) → Transport → Transport × Outcome Bool
  unfolding reply_pointer make_ok_response make_err_response
  context_reply req none t = (t, panicked nil_dereference)
  context_reply req (some res) t = elim res.error [
    | some e ↦ (reply (make_err_response req res.status e) t, returned true)
    | none ↦
        let (type_name, marshalled) = result_message res.result in
        reply_pointer (make_ok_response req type_name marshalled) t
  ]

  -- What a message from the subscription leads to: a reply at once, or a call of the server.
  pub data Received : Type 0 where
    replied : Transport → Received
    calls : RequestData → Received

  -- The callback of `initReceive`.
  unfoldable pub receive : Message → Transport → Received
  unfolding reply make_err_response
  receive m t =
      let (req, failure) = unmarshal_request algorithms requests m.payload in
      if m.retained
      then replied (
          reply
            (make_err_response (record { topic = m.topic; request = empty_request }) (pos 400)
              retained_message)
            t)
      else elim failure [
        | some e ↦
            replied
              (reply (make_err_response (record { topic = m.topic; request = req }) (pos 400) e) t)
        | none ↦ calls (record { topic = m.topic; request = req })
      ]

-- `Bind`, into a message of the Go type `type_name`: the bytes that `proto.Unmarshal` is given. A
-- request without a body panics at `c.req.Body.TypeUrl`.
unfoldable pub bind : RequestData → Option Bytes → Outcome (Result (Option Bytes))
bind r none = returned (err request_not_proto)
bind r (some type_name) = elim r.request.body [
  | none ↦ panicked nil_dereference
  | some body ↦
      if type_name == body.type_url
      then returned (ok body.value)
      else returned (err (type_not_found type_name))
]
