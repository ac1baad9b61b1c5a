-- ===== src/Mqttjson/Client/Calls.antt =====
-- A call of the JSON client: its topics, and its trace context.
use go_reverse_rpc.Base.{◌≡◌, refl, sym, ap, ◌∙◌, Option, [], Bytes, bytes_eq, arith, All}
use go_reverse_rpc.Errors.{Error, Result, ok, err}
use go_reverse_rpc.Topics.{split_slash}
use go_reverse_rpc.Topics.Paths.{NoDots, IsSegment, base_topic, join-topic}
use go_reverse_rpc.Topics.Replies.{Lacks}
use go_reverse_rpc.Mqttpb.ClientCodec.{Propagator, RpcRequest}
use go_reverse_rpc.Mqttpb.Client.{CallEnd}
use go_reverse_rpc.Mqttpb.Client.Topics.{request_word-IsSegment, response_word-IsSegment}
use go_reverse_rpc.Mqttpb.Server.Replies.{request_word, response_word}
use go_reverse_rpc.Mqttjson.Messages.{Request, Json}
use go_reverse_rpc.Mqttjson.Server.{reply_topic}
use go_reverse_rpc.Mqttjson.Server.Replies.{reply_topic-response_topic}
use go_reverse_rpc.Mqttjson.ClientCodec.{write_request}
use go_reverse_rpc.Mqttjson.Client.{request_topic, response_topic, call}

-- For a prefix without `.` and `..` levels, a target and an id that are one level each, and
-- "request" neither in the levels up to the target nor in the id: the reply to a request that
-- arrives on the client's request topic goes to the topic that the client subscribes to.
pub reply_topic-request_topic :
    (prefix target id : Bytes) (request : Request)
    → All NoDots (split_slash [] prefix)
    → IsSegment target
    → IsSegment id
    → Lacks request_word (base_topic prefix target)
    → Lacks request_word id
    → reply_topic (record { topic = request_topic prefix target id; request = request })
      ≡ response_topic prefix target id
unfolding request_topic response_topic
reply_topic-request_topic prefix target id request n t i l k =
    ap (λ (topic : Bytes). reply_topic (record { topic = topic; request = request }))
      (join-topic prefix target request_word id n (t, (request_word-IsSegment, (i, tt))))
    ∙ reply_topic-response_topic (base_topic prefix target) id request l k
    ∙ sym (join-topic prefix target response_word id n (t, (response_word-IsSegment, (i, tt))))

-- Whatever context a call is given, and whatever the propagator would add for it: the request that
-- the call writes has no metadata.
pub call-untraced :
    {C : Type 0} (json : Json) (propagator : Propagator C) (prefix target id : Bytes) (ctx : C)
    (ended : CallEnd) (write : Bytes → Option Error) (r : RpcRequest) (param : Result Bytes)
    → (write_request json propagator write r param
        (call prefix ctx target id ended).1).1.request.metadata
      ≡ []
unfolding call write_request
call-untraced json propagator prefix target id ctx ended write r (err e) = refl
call-untraced json propagator prefix target id ctx ended write r (ok params) = ground arith
