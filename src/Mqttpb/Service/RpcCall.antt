-- ===== src/Mqttpb/Service/RpcCall.antt =====
-- A call from the client's `WriteRequest` to its `ReadResponseBody`.
use go_reverse_rpc.Base.Int.{InInt32}
use go_reverse_rpc.Base.Utf8.{IsUtf8}
use go_reverse_rpc.Base.{
  ◌^◌, ◌<◌, ℕ, subst, ℤ, ◌≡◌, ◌≢◌, sym, ap, ◌∙◌, false, Option, none, some, List, [], ◌∷◌, Bytes,
  bytes_eq, ℕ_eq, arith, All,
}
use go_reverse_rpc.Errors.{Error, message, Result, ok}
use go_reverse_rpc.Context.{
  returned, ChildContext, new_request_context, error_response, ok_response, default_qos,
}
use go_reverse_rpc.Server.{Server}
use go_reverse_rpc.Server.Call.{left, Env, Move, run, call}
use go_reverse_rpc.Server.Call.Answers.{answer, Fits}
use go_reverse_rpc.Compressor.{Algorithms}
use go_reverse_rpc.Compressor.Buffers.{Manager}
use go_reverse_rpc.Compressor.RoundTrip.{AllLossless}
use go_reverse_rpc.Compressor.Writes.{IsValid}
use go_reverse_rpc.Mqttpb.Messages.{
  FaithfulRequests, FaithfulResponses, IsRequest, Request, Response, Wire, done, drop_empty,
  empty_response,
}
use go_reverse_rpc.Mqttpb.Codec.RoundTrip.{EmptyInput}
use go_reverse_rpc.Mqttpb.Server.{
  Value, proto_message, RequestData, Transport, calls, receive, get_reply_topic,
}
use go_reverse_rpc.Mqttpb.ClientCodec.{
  next_request, Propagator, RpcRequest, RpcResponse, proto, ClientCodec, write_request,
  read_response_header, read_response_body,
}
use go_reverse_rpc.Mqttpb.Service.Reading.{
  read-write_request, read_error-write_request, received_request,
}
use go_reverse_rpc.Mqttpb.Service.{child_context, deliver, bind_value, new_mqtt_context}
use go_reverse_rpc.Mqttpb.Service.Served.{child, replies_of, served_error, served_ok}

-- The server answers calls of a method, whose argument binds to the bytes `value`, with the message
-- of type `result_name` and bytes `result`.
abbrev pub AnswersCall :
    {W : Type 0} → Server Value W → Env → Bytes → Bytes → Bytes → Bytes → Bytes → Type 0
AnswersCall s env method type_name value result_name result =
    (ctx : ChildContext Value) (bound : Option Bytes)
    → ctx.method ≡ method
    → ctx.bind (proto_message type_name (done [])) ≡ returned (ok bound)
    → drop_empty bound ≡ drop_empty (some value)
    → answer s env ctx ≡ some (ok_response (some (proto_message result_name (done result))))

module _ {C W : Type 0} (algorithms : Algorithms) (requests : Wire Request)
    (responses : Wire Response) (propagator : Propagator C) (background : C)
    (lossless : AllLossless algorithms) (reject : EmptyInput algorithms)
    (faithful : FaithfulRequests requests) (faithful' : FaithfulResponses responses)
    (s : Server Value W) (env : Env) (moves : List Move) (w : W) (r : RpcRequest)
    (type_name value : Bytes) (c c₁ : ClientCodec C) (st st₁ : Manager) (t : Transport)
    (topic payload : Bytes) (req : RequestData) where
  -- A call between a client and a server whose compression packages and wire formats keep their
  -- contracts, where no bytes are the empty response, with valid pools; the strings of the request,
  -- and the type or error text of the answer, are in UTF-8, and the request's numbers fit their Go
  -- types. The client writes a message as the argument, the server receives what was written, and
  -- answers calls of that method and argument with a message, in time. When `Server.Call` has
  -- returned, it has published one message on the reply topic, and from it the client's codec reads
  -- the method and the number of its call, no error, and the message's bytes, up to nil for no
  -- bytes.
  pub rpc_call :
      (result_name result : Bytes)
      → IsRequest (next_request propagator c r type_name value)
      → IsUtf8 result_name
      → IsValid st
      → IsValid t.manager
      → responses.unmarshal [] ≡ (empty_response, none)
      → write_request algorithms propagator requests
          (λ bytes. none)
          r
          (proto type_name (done value))
          c
          st
        ≡ (ok payload, c₁, st₁)
      → receive algorithms requests responses
          (record { topic = topic; retained = false; payload = payload })
          t
        ≡ calls req
      → AnswersCall s env r.service_method type_name value result_name result
      → All (Fits false) moves
      → (run s env moves (
          call s env
            (new_request_context (child algorithms requests responses propagator background req))
            w)).caller
        ≡ left
      → (reply : Bytes) × (read : Option Bytes) × ((deliver algorithms requests responses req
            (replies_of algorithms requests responses propagator background s env req moves w)
            t).outbox
          ≡ record {
            topic = get_reply_topic req;
            qos = default_qos;
            retained = false;
            payload = reply;
          }
            ∷ t.outbox)
        × (let (header, c₂) = read_response_header algorithms propagator responses (ok reply) c₁ in
            (header ≡ ok (record { service_method = r.service_method; seq = r.seq; error = [] }))
            × (read_response_body (proto result_name (done [])) c₂ ≡ ok read)
            × (drop_empty read ≡ drop_empty (some result)))
  unfolding child_context bind_value new_mqtt_context next_request
  rpc_call result_name result w₁ u₁ v tv nil wrote got answers fits over =
      let (bound, i, m, n, bound_to, holds) =
        received_request algorithms requests responses propagator lossless reject faithful r
          type_name value c c₁ st st₁ t topic payload req w₁ v wrote got in
      let id_fits = subst (λ (id : ℕ). id < 2 ^ 64) (sym i) w₁.id in
      let encoding_fits = subst InInt32 (sym n) w₁.encoding in
      let expected =
        answers (child algorithms requests responses propagator background req) bound m bound_to
          holds in
      let (reply, received, sent, u, same, valid) =
        served_ok algorithms requests responses propagator background s env req moves w lossless
          reject faithful' result_name result t id_fits encoding_fits u₁ tv expected fits over in
      let after = ap (λ (p : Result Bytes × ClientCodec C × Manager). p.1) wrote in
      let (header, read, reads, as_sent) =
        read-write_request algorithms requests responses propagator (λ bytes. none) r type_name
          value result_name result c st reply received nil u
          (ap (λ (q : Response). q.id) same.message ∙ i)
          (ap (λ (q : Response). q.status) same.message)
          (ap (λ (q : Response). q.error_message) same.message)
          (ap (λ (q : Response). q.body) same.message) in
      let reading : ClientCodec C → Result RpcResponse × ClientCodec C =
        read_response_header algorithms propagator responses (ok reply) in
      (
        reply,
        read,
        sent,
        (
          sym (ap (λ codec. (reading codec).0) after) ∙ header,
          sym (
                ap (λ codec. read_response_body (proto result_name (done [])) (reading codec).1)
                  after)
              ∙ reads,
          as_sent,
        ),
      )

  -- A call between a client and a server whose compression packages and wire formats keep their
  -- contracts, where no bytes are the empty response, with valid pools; the strings of the request,
  -- and the type or error text of the answer, are in UTF-8, and the request's numbers fit their Go
  -- types. The client writes a message as the argument, the server receives what was written, and
  -- answers it with an error whose text is not empty, in time. When `Server.Call` has returned, it
  -- has published one message on the reply topic, and from it the client's codec reads the method
  -- and the number of its call, and the error's text.
  pub rpc_call_error :
      (status : ℤ) (e : Error)
      → message e ≢ []
      → IsRequest (next_request propagator c r type_name value)
      → IsUtf8 (message e)
      → IsValid st
      → IsValid t.manager
      → responses.unmarshal [] ≡ (empty_response, none)
      → write_request algorithms propagator requests
          (λ bytes. none)
          r
          (proto type_name (done value))
          c
          st
        ≡ (ok payload, c₁, st₁)
      → receive algorithms requests responses
          (record { topic = topic; retained = false; payload = payload })
          t
        ≡ calls req
      → answer s env (child algorithms requests responses propagator background req)
        ≡ some (error_response status e)
      → All (Fits false) moves
      → (run s env moves (
          call s env
            (new_request_context (child algorithms requests responses propagator background req))
            w)).caller
        ≡ left
      → (reply : Bytes) × ((deliver algorithms requests responses req
            (replies_of algorithms requests responses propagator background s env req moves w)
            t).outbox
          ≡ record {
            topic = get_reply_topic req;
            qos = default_qos;
            retained = false;
            payload = reply;
          }
            ∷ t.outbox)
        × ((read_response_header algorithms propagator responses (ok reply) c₁).0
            ≡ ok (record { service_method = r.service_method; seq = r.seq; error = message e }))
  unfolding next_request
  rpc_call_error status e text w₁ u₁ v tv nil wrote got answered fits over =
      let (bound, i, m, n, bound_to, holds) =
        received_request algorithms requests responses propagator lossless reject faithful r
          type_name value c c₁ st st₁ t topic payload req w₁ v wrote got in
      let id_fits = subst (λ (id : ℕ). id < 2 ^ 64) (sym i) w₁.id in
      let encoding_fits = subst InInt32 (sym n) w₁.encoding in
      let (reply, received, sent, u, same, valid) =
        served_error algorithms requests responses propagator background s env req moves w lossless
          reject faithful' status e t id_fits encoding_fits u₁ tv answered fits over in
      let after = ap (λ (p : Result Bytes × ClientCodec C × Manager). p.1) wrote in
      let error = ap (λ (q : Response). q.error_message) same.message in
      let header =
        read_error-write_request algorithms requests responses propagator (λ bytes. none) r
          (proto type_name (done value)) c st reply received nil u
          (ap (λ (q : Response). q.id) same.message ∙ i) (λ empty. text (sym error ∙ empty)) in
      (
        reply,
        sent,
        sym (
              ap
                (λ (codec : ClientCodec C).
                  (read_response_header algorithms propagator responses (ok reply) codec).0)
                after)
            ∙ header
            ∙ ground (arith, error),
      )
