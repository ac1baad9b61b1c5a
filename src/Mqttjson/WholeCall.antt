-- ===== src/Mqttjson/WholeCall.antt =====
-- mqttjson/: a call from `Client.Call` to what `net/rpc` gets back, over the topics and the
-- connection.
use go_reverse_rpc.Base.{
  ℕ, ◌<◌, ◌≡◌, ◌≢◌, refl, ap, subst, ◌∙◌, false, none, some, List, [], ◌∷◌, Bytes, bytes_eq, All,
}
use go_reverse_rpc.Errors.{Result, ok}
use go_reverse_rpc.Context.{new_request_context}
use go_reverse_rpc.Server.{Server}
use go_reverse_rpc.Server.Call.{left, Env, Move, run, call}
use go_reverse_rpc.Server.Call.Answers.{Fits}
use go_reverse_rpc.Topics.{split_slash}
use go_reverse_rpc.Topics.Paths.{NoDots, IsSegment, base_topic}
use go_reverse_rpc.Topics.Replies.{Lacks}
use go_reverse_rpc.Mqttpb.Client.{CallEnd}
use go_reverse_rpc.Mqttpb.ClientCodec.{Propagator, RpcRequest, injected}
use go_reverse_rpc.Mqttpb.Conn.{new_conn}
use go_reverse_rpc.Mqttpb.Conn.Whole.{ReadsWhole, new_conn-ReadsWhole}
use go_reverse_rpc.Mqttpb.Server.{Published}
use go_reverse_rpc.Mqttpb.Server.Replies.{request_word}
use go_reverse_rpc.Mqttjson.Messages.{Response, Json, Lawful}
use go_reverse_rpc.Mqttjson.Server.{RequestData, calls, receive, reply_topic, reply}
use go_reverse_rpc.Mqttjson.ClientCodec.{
  ClientCodec, write_request, read_response_header, read_response_body,
}
use go_reverse_rpc.Mqttjson.Client
use go_reverse_rpc.Mqttjson.Client.{create_rpc_client, new_client_codec, dial}
use go_reverse_rpc.Mqttjson.Client.Calls.{reply_topic-request_topic}
use go_reverse_rpc.Mqttjson.Service.{Binding, deliver}
use go_reverse_rpc.Mqttjson.Service.Served.{child, replies_of}
use go_reverse_rpc.Mqttjson.Service.RpcCall.{AnswersCall, received_request, json_rpc_call}
use go_reverse_rpc.Mqttjson.Service.Payloads.{Extends, deliver-Extends, one-Extends}

-- A message that is not empty is read whole.
read-ReadsWhole :
    (request_topic response_topic : Bytes) (qos : ℕ) (size : ℕ → ℕ) (payload : Bytes)
    → payload ≢ []
    → ((j : ℕ) → 0 < size j)
    → ReadsWhole (new_conn request_topic response_topic qos) size payload
read-ReadsWhole request_topic response_topic qos size [] n h = absurd (n refl)
read-ReadsWhole request_topic response_topic qos size (b ∷ bs) n h =
    new_conn-ReadsWhole request_topic response_topic qos size b bs h

module _ {C W : Type 0} (json : Json) (law : Lawful json) (nil_result : Result Bytes)
    (propagator : Propagator C) (background : C) (binding : Binding) (s : Server (Result Bytes) W)
    (env : Env) (moves : List Move) (w : W) (r : RpcRequest) (params : Bytes) (c₁ : ClientCodec C)
    (payload : Bytes) (req : RequestData) (outbox : List Published) where
  -- A whole JSON call, with an encoding that keeps the contract of encoding/json and encodes no
  -- response as no bytes. The topic prefix has no `.` and `..` levels, the target and the id are
  -- one level each, and "request" is neither in the levels up to the target nor in the id.
  -- `Client.Call` makes its connection and codec, the codec writes JSON as the params, with a
  -- method in UTF-8, the server receives it on the connection's request topic, and answers calls of
  -- that method, whose params fill its target and are valid, with JSON, in time. When `Server.Call`
  -- has returned, it has published one message, on the response topic of the connection. If that
  -- message comes while the connection's first `Read` waits, the reads from then on, whatever the
  -- sizes of their buffers above zero, give it whole, and from it the codec reads the method and
  -- the number of its call, no error, and that JSON.
  pub json_whole_call :
      (prefix target id : Bytes) (ctx : C) (ended : CallEnd) (filled : Result Bytes)
      (content : Bytes) (size : ℕ → ℕ)
      → All NoDots (split_slash [] prefix)
      → IsSegment target
      → IsSegment id
      → Lacks request_word (base_topic prefix target)
      → Lacks request_word id
      → ((j : ℕ) → 0 < size j)
      → ((res : Response) → json.encode_response res ≢ ok [])
      → law.IsText r.service_method
      → law.IsJson params
      → write_request json propagator
          (λ bytes. none)
          r
          (ok params)
          (Client.call prefix ctx target id ended).1
        ≡ (ok payload, c₁)
      → receive json
          (record {
            topic = (Client.call prefix ctx target id ended).0.request_topic;
            retained = false;
            payload = payload;
          })
          outbox
        ≡ calls req
      → All (Fits false) moves
      → (run s env moves (
          call s env
            (new_request_context (child json nil_result propagator background binding req))
            w)).caller
        ≡ left
      → binding.unmarshal (some params) filled ≡ none
      → binding.validate (some params) filled ≡ none
      → AnswersCall s env r.service_method params filled content
      → law.IsJson content
      → let conn = (Client.call prefix ctx target id ended).0 in
        (reply : Bytes) × (deliver json nil_result req
            (replies_of json nil_result propagator background binding s env req moves w)
            outbox
          ≡ record { topic = conn.response_topic; qos = 0; retained = false; payload = reply }
            ∷ outbox)
        × ReadsWhole conn size reply
        × (let (header, c₂) = read_response_header json propagator reply c₁ in
            (header ≡ ok (record { service_method = r.service_method; seq = r.seq; error = [] }))
            × (read_response_body c₂ ≡ some content))
  unfolding Client.call create_rpc_client dial new_conn new_client_codec injected
  json_whole_call prefix target id ctx ended filled content size n t i l k sizes texts text
        params_json wrote got fits over fills valid answers j =
      let codec = (Client.call prefix ctx target id ended).1 in
      let topic = Client.request_topic prefix target id in
      let (there, same_id, m, p, same) =
        received_request json law propagator r params codec c₁ topic payload req outbox text tt
          params_json wrote got in
      let (reply, sent, read) =
        json_rpc_call json law nil_result propagator background binding s env moves w r params codec
          c₁ topic payload req outbox text tt params_json wrote got fits over filled content fills
          valid answers j in
      let answered : reply_topic req ≡ Client.response_topic prefix target id =
        ap (λ (topic : Bytes). reply_topic (record { topic = topic; request = req.request })) there
        ∙ reply_topic-request_topic prefix target id req.request n t i l k in
      let given =
        sent
        ∙ ap
            (λ (topic : Bytes).
              record { topic = topic; qos = 0; retained = false; payload = reply } ∷ outbox)
            answered in
      let replies = replies_of json nil_result propagator background binding s env req moves w in
      let extends = deliver-Extends json texts nil_result req replies outbox in
      let nonempty = one-Extends json texts _ outbox (subst (Extends outbox) given extends) in
      (reply, given, read-ReadsWhole _ _ _ size reply nonempty sizes, read)
