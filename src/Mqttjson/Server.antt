-- ===== src/Mqttjson/Server.antt =====
-- mqttjson/server.go and mqttjson/context.go: requests that arrive by MQTT, and their replies.
pub mod Replies
use go_reverse_rpc.Base.{
  ℤ, pos, Bool, true, false, Option, none, some, List, [], ◌∷◌, Bytes, lit, if◌then◌else◌,
}
use go_reverse_rpc.Errors.{Error, message, retained_message, Result, ok, err}
use go_reverse_rpc.Context
use go_reverse_rpc.Context.{Outcome, returned, panicked, status_ok}
use go_reverse_rpc.Topics.{replace_all}
use go_reverse_rpc.Mqttpb.Server.{Published, Message, nil_dereference}
use go_reverse_rpc.Mqttjson.Messages.{Request, Response, empty_request, Json}

pub record RequestData : Type 0 where
  pub topic : Bytes
  pub request : Request

pub record ResponseData : Type 0 where
  pub topic : Bytes
  pub response : Response

-- `strings.ReplaceAll(r.Topic, "request", "response")`
unfoldable pub reply_topic : RequestData → Bytes
reply_topic r = replace_all (lit "request") (lit "response") r.topic

unfoldable pub get_response : RequestData → ResponseData
unfolding reply_topic
get_response r = record {
  topic = reply_topic r;
  response = record {
    id = r.request.id;
    method = r.request.method;
    status = pos 0;
    metadata = [];
    content = none;
  };
}

-- The data of a result by what `json.Marshal` makes of it: nil, if it fails.
abbrev pub marshalled : Result Bytes → Option Bytes
marshalled (ok content) = some content
marshalled (err e) = none

unfoldable pub make_ok_response : RequestData → Result Bytes → ResponseData
unfolding get_response
make_ok_response r result =
    let res = get_response r in
    record res {
      response = record (res.response) { status = status_ok; content = marshalled result };
    }

module _ (json : Json) where
  unfoldable pub make_err_response : RequestData → ℤ → Error → ResponseData
  unfolding get_response
  make_err_response r status e =
      let res = get_response r in
      record res {
        response = record (res.response) {
          status = status;
          content = some (json.error_object (message e));
        };
      }

  unfoldable pub publish : Bytes → Result Bytes → List Published → List Published
  publish topic (err e) outbox = outbox
  publish topic (ok bytes) outbox =
      record { topic = topic; qos = 0; retained = false; payload = bytes } ∷ outbox

  -- `Server.reply`; the server's `qos` is never set, and its error is dropped by every caller.
  unfoldable pub reply : ResponseData → List Published → List Published
  unfolding publish
  reply res outbox = publish res.topic (json.encode_response res.response) outbox

  -- `MQTTContext.Reply`. A result is what `json.Marshal` makes of it; `nil_result` is that of nil.
  unfoldable pub context_reply :
      Result Bytes
      → RequestData
      → Option (Context.Response (Result Bytes))
      → List Published
      → List Published × Outcome Bool
  unfolding reply make_err_response make_ok_response
  context_reply nil_result req none outbox = (outbox, panicked nil_dereference)
  context_reply nil_result req (some res) outbox = elim res.error [
    | some e ↦ (reply (make_err_response req res.status e) outbox, returned true)
    | none ↦ elim res.result [
      | none ↦ (reply (make_ok_response req nil_result) outbox, returned true)
      | some result ↦ (reply (make_ok_response req result) outbox, returned true)
    ]
  ]

  pub data Received : Type 0 where
    replied : List Published → Received
    calls : RequestData → Received

  -- The callback of `initReceive`.
  unfoldable pub receive : Message → List Published → Received
  unfolding reply make_err_response
  receive m outbox =
      let (request, failure) = json.decode_request m.payload empty_request in
      if m.retained
      then replied (
          reply
            (make_err_response (record { topic = m.topic; request = empty_request }) (pos 400)
              retained_message)
            outbox)
      else elim failure [
        | some e ↦ replied (
            reply (make_err_response (record { topic = m.topic; request = request }) (pos 400) e)
              outbox)
        | none ↦ calls (record { topic = m.topic; request = request })
      ]

-- `Bind`: what `json.Unmarshal` of the params says, then what the validator says.
unfoldable pub bind : Option Error → Option Error → Option Error
bind (some e) invalid = some e
bind none invalid = invalid
