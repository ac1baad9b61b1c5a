-- ===== src/Mqttpb/WholeCall.antt =====
-- mqttpb/: a call from `Client.Call` to what `net/rpc` gets back, over the topics and the
-- connection.
use go_reverse_rpc.Base.Utf8.{IsUtf8}
use go_reverse_rpc.Base.{
  ℕ, ◌<◌, ◌≡◌, ap, ◌∙◌, false, none, some, Option, List, [], ◌∷◌, Bytes, bytes_eq, arith, All,
}
use go_reverse_rpc.Errors.{ok}
use go_reverse_rpc.Context.{new_request_context, default_qos}
use go_reverse_rpc.Server.{Server}
use go_reverse_rpc.Server.Call.{left, Env, Move, run, call}
use go_reverse_rpc.Server.Call.Answers.{Fits}
use go_reverse_rpc.Compressor.{Algorithms}
use go_reverse_rpc.Compressor.Buffers.{Manager}
use go_reverse_rpc.Compressor.RoundTrip.{AllLossless}
use go_reverse_rpc.Compressor.Writes.{IsValid}
use go_reverse_rpc.Topics.{split_slash}
use go_reverse_rpc.Topics.Paths.{NoDots, IsSegment, base_topic}
use go_reverse_rpc.Topics.Replies.{Lacks}
use go_reverse_rpc.Mqttpb.Messages.{
  FaithfulRequests, FaithfulResponses, IsRequest, Request, Response, Wire, done, drop_empty,
  empty_response,
}
use go_reverse_rpc.Mqttpb.Codec.RoundTrip.{EmptyInput}
use go_reverse_rpc.Mqttpb.Server.{
  Value, RequestData, Published, Message, Transport, calls, receive, get_reply_topic,
}
use go_reverse_rpc.Mqttpb.Server.Replies.{request_word}
use go_reverse_rpc.Mqttpb.ClientCodec.{
  next_request, Propagator, RpcRequest, RpcResponse, proto, ClientCodec, write_request,
  read_response_header, read_response_body,
}
use go_reverse_rpc.Mqttpb.Service.{deliver}
use go_reverse_rpc.Mqttpb.Service.Served.{child, replies_of}
use go_reverse_rpc.Mqttpb.Service.RpcCall.{AnswersCall, rpc_call}
use go_reverse_rpc.Mqttpb.Client
use go_reverse_rpc.Mqttpb.Client.{CallOption, CallEnd, create_rpc_client}
use go_reverse_rpc.Mqttpb.Client.Topics.{get_reply_topic-request_topic}
use go_reverse_rpc.Mqttpb.Conn.{new_conn, read, write}
use go_reverse_rpc.Mqttpb.Conn.Whole.{ReadsWhole, new_conn-ReadsWhole}

-- What a publication is to those that subscribe to its topic when it is made.
abbrev pub arriving : Published → Message
arriving p = record { topic = p.topic; retained = p.retained; payload = p.payload }

receive-topic :
    (algorithms : Algorithms) (requests : Wire Request) (responses : Wire Response) (m : Message)
    (t : Transport) (req : RequestData)
    → receive algorithms requests responses m t ≡ calls req
    → req.topic ≡ m.topic
unfolding receive
receive-topic algorithms requests responses m t req got = ground arith

-- A message that a codec reads a header from is not empty, and a connection reads it whole.
header-ReadsWhole :
    {C : Type 0} (algorithms : Algorithms) (propagator : Propagator C) (responses : Wire Response)
    (reply : Bytes) (c : ClientCodec C) (header : RpcResponse)
    (request_topic response_topic : Bytes) (qos : ℕ) (size : ℕ → ℕ)
    → (read_response_header algorithms propagator responses (ok reply) c).0 ≡ ok header
    → ((j : ℕ) → 0 < size j)
    → ReadsWhole (new_conn request_topic response_topic qos) size reply
unfolding read_response_header
header-ReadsWhole algorithms propagator responses [] c header request_topic response_topic qos size
      e h =
    absurd (cc)
header-ReadsWhole algorithms propagator responses (b ∷ bs) c header request_topic response_topic qos
      size e h =
    new_conn-ReadsWhole request_topic response_topic qos size b bs h

module _ {C W : Type 0} (algorithms : Algorithms) (requests : Wire Request)
    (responses : Wire Response) (propagator : Propagator C) (background : C)
    (lossless : AllLossless algorithms) (reject : EmptyInput algorithms)
    (faithful : FaithfulRequests requests) (faithful' : FaithfulResponses responses)
    (s : Server Value W) (env : Env) (moves : List Move) (w : W) (r : RpcRequest)
    (type_name value : Bytes) (st st₁ : Manager) (t : Transport) (payload : Bytes)
    (req : RequestData) where
  -- A whole call between a client and a server whose compression packages and wire formats keep
  -- their contracts, where no bytes are the empty response, with valid pools. The topic prefix has
  -- no `.` and `..` levels, the device and the id are one level each, and "request" is not in the
  -- levels up to the device. The strings of the request, and the type of the answer, are in UTF-8,
  -- and the request's numbers fit their Go types. `Client.Call` makes its connection and codec, the
  -- codec writes a message as the argument, the server receives what the connection publishes, and
  -- answers calls of that method and argument with a message, in time. When `Server.Call` has
  -- returned, it has published one message, on the response topic of the connection. If that
  -- message comes while the connection's first `Read` waits, `io.ReadAll`, whatever the sizes of
  -- its buffers above zero, gives it whole, and from it the codec reads the method and the number
  -- of its call, no error, and the result's bytes, up to nil for no bytes.
  pub whole_call :
      (prefix device id : Bytes) (ctx : C) (options : List CallOption) (pooled c₁ : ClientCodec C)
      (ended : CallEnd) (result_name result : Bytes) (size : ℕ → ℕ)
      → All NoDots (split_slash [] prefix)
      → IsSegment device
      → IsSegment id
      → Lacks request_word (base_topic prefix device)
      → ((j : ℕ) → 0 < size j)
      → IsRequest (
          next_request propagator
            (Client.call prefix ctx device options id pooled ended).1
            r
            type_name
            value)
      → IsUtf8 result_name
      → IsValid st
      → IsValid t.manager
      → responses.unmarshal [] ≡ (empty_response, none)
      → write_request algorithms propagator requests
          (λ bytes. none)
          r
          (proto type_name (done value))
          (Client.call prefix ctx device options id pooled ended).1
          st
        ≡ (ok payload, c₁, st₁)
      → receive algorithms requests responses
          (arriving (write payload (Client.call prefix ctx device options id pooled ended).0))
          t
        ≡ calls req
      → AnswersCall s env r.service_method type_name value result_name result
      → All (Fits false) moves
      → (run s env moves (
          call s env
            (new_request_context (child algorithms requests responses propagator background req))
            w)).caller
        ≡ left
      → let conn = (Client.call prefix ctx device options id pooled ended).0 in
        (reply : Bytes) × (read : Option Bytes) × ((deliver algorithms requests responses req
            (replies_of algorithms requests responses propagator background s env req moves w)
            t).outbox
          ≡ record {
            topic = conn.response_topic;
            qos = default_qos;
            retained = false;
            payload = reply;
          }
            ∷ t.outbox)
        × ReadsWhole conn size reply
        × (let (header, c₂) = read_response_header algorithms propagator responses (ok reply) c₁ in
            (header ≡ ok (record { service_method = r.service_method; seq = r.seq; error = [] }))
            × (read_response_body (proto result_name (done [])) c₂ ≡ ok read)
            × (drop_empty read ≡ drop_empty (some result)))
  unfolding Client.call create_rpc_client new_conn write
  whole_call prefix device id ctx options pooled c₁ ended result_name result size n d i l sizes w₁
        u₁ v tv nil wrote got answers fits over =
      let conn = (Client.call prefix ctx device options id pooled ended).0 in
      let codec = (Client.call prefix ctx device options id pooled ended).1 in
      let (reply, read, sent, (header, body, same)) =
        rpc_call algorithms requests responses propagator background lossless reject faithful
          faithful' s env moves w r type_name value codec c₁ st st₁ t
          (Client.request_topic prefix device id) payload req result_name result w₁ u₁ v tv nil
          wrote got answers fits over in
      let topic : get_reply_topic req ≡ conn.response_topic =
        ap (λ (topic : Bytes). get_reply_topic (record { topic = topic; request = req.request }))
          (receive-topic algorithms requests responses _ t req got)
        ∙ get_reply_topic-request_topic prefix device id req.request n d i l in
      (
        reply,
        read,
        sent
            ∙ ap
                (λ (topic : Bytes).
                  record { topic = topic; qos = default_qos; retained = false; payload = reply }
                  ∷ t.outbox)
                topic,
        header-ReadsWhole algorithms propagator responses reply c₁ _ _ _ _ size header sizes,
        (header, body, same),
      )
