-- ===== src/Mqttpb/Service/Reading.antt =====
-- What the server receives of a written request, and what the client reads of a reply to it.
use go_reverse_rpc.Base.{
  ◌≡◌, ◌≢◌, sym, ap, ◌∙◌, false, Option, none, some, [], ◌∷◌, Bytes, bytes_eq, ℕ_eq, arith,
}
use go_reverse_rpc.Errors.{Error, ok}
use go_reverse_rpc.Context.{returned, status_ok}
use go_reverse_rpc.Compressor.{Algorithms}
use go_reverse_rpc.Compressor.Buffers.{Manager}
use go_reverse_rpc.Compressor.RoundTrip.{AllLossless}
use go_reverse_rpc.Compressor.Writes.{IsValid}
use go_reverse_rpc.Mqttpb.Messages.{
  FaithfulRequests, IsRequest, Request, Response, Wire, done, drop_empty, canonical_body,
  empty_response,
}
use go_reverse_rpc.Mqttpb.Codec.{unmarshal_response}
use go_reverse_rpc.Mqttpb.Codec.RoundTrip.{EmptyInput}
use go_reverse_rpc.Mqttpb.Server.{RequestData, Transport, calls, receive, bind}
use go_reverse_rpc.Mqttpb.ClientCodec.{
  next_request, Propagator, RpcRequest, Argument, proto, ClientCodec, write_request,
  read_response_header, read_response_body,
}
use go_reverse_rpc.Mqttpb.ClientCodec.Pending.{header-write_request}
use go_reverse_rpc.Mqttpb.Service.Received.{arrived_body, bind-write_request}

-- No bytes are the empty message.
unmarshal_response-nil :
    (algorithms : Algorithms) (responses : Wire Response) (received : Response)
    → responses.unmarshal [] ≡ (empty_response, none)
    → unmarshal_response algorithms responses [] ≡ (received, none)
    → received ≡ empty_response
unfolding unmarshal_response
unmarshal_response-nil algorithms responses received e u = ground arith

module _ {C : Type 0} (algorithms : Algorithms) (requests : Wire Request)
    (responses : Wire Response) (propagator : Propagator C) where
  -- The header and the body that the client reads from a successful reply to its request.
  pub read-write_request :
      (write : Bytes → Option Error) (r : RpcRequest) (type_name value result_name result : Bytes)
      (c : ClientCodec C) (st : Manager) (payload : Bytes) (received : Response)
      → responses.unmarshal [] ≡ (empty_response, none)
      → unmarshal_response algorithms responses payload ≡ (received, none)
      → received.id ≡ r.seq
      → received.status ≡ status_ok
      → received.error_message ≡ []
      → canonical_body received.body
        ≡ some (record { type_url = result_name; value = drop_empty (some result) })
      → let c₁ =
          (write_request algorithms propagator requests write r
            (proto type_name (done value))
            c
            st).1 in
        let (header, c₂) = read_response_header algorithms propagator responses (ok payload) c₁ in
        (header ≡ ok (record { service_method = r.service_method; seq = r.seq; error = [] }))
        × (bytes : Option Bytes) × (read_response_body (proto result_name (done [])) c₂ ≡ ok bytes)
        × (drop_empty bytes ≡ drop_empty (some result))
  unfolding read_response_header read_response_body
  read-write_request write r type_name value result_name result c st [] received nil u i s e b =
      absurd (ground (arith, s, unmarshal_response-nil algorithms responses received nil u))
  read-write_request write r type_name value result_name result c st (p ∷ ps) received nil u i s e
        b =
      let (body, here, named, holds) = arrived_body result_name result received.body b in
      let (header, pending) =
        header-write_request algorithms propagator requests responses write r
          (proto type_name (done value)) c st p ps received 0 u i in
      (
        header ∙ ground (arith, e),
        drop_empty body.value,
        ground (arith, u, here, named),
        ground (arith, holds),
      )

  -- The header that the client reads from a reply with an error.
  pub read_error-write_request :
      (write : Bytes → Option Error) (r : RpcRequest) (param : Argument) (c : ClientCodec C)
      (st : Manager) (payload : Bytes) (received : Response)
      → responses.unmarshal [] ≡ (empty_response, none)
      → unmarshal_response algorithms responses payload ≡ (received, none)
      → received.id ≡ r.seq
      → received.error_message ≢ []
      → (read_response_header algorithms propagator responses
          (ok payload)
          (write_request algorithms propagator requests write r param c st).1).0
        ≡ ok (record {
          service_method = r.service_method;
          seq = r.seq;
          error = received.error_message;
        })
  read_error-write_request write r param c st [] received nil u i e = absurd (
      e (
        ap (λ (q : Response). q.error_message)
          (unmarshal_response-nil algorithms responses received nil u)))
  read_error-write_request write r param c st (p ∷ ps) received nil u i e =
      (header-write_request algorithms propagator requests responses write r param c st p ps
        received 0 u i).0

  -- The request as it arrives.
  pub received_request :
      (lossless : AllLossless algorithms) (reject : EmptyInput algorithms)
      (faithful : FaithfulRequests requests) (r : RpcRequest) (type_name value : Bytes)
      (c c₁ : ClientCodec C) (st st₁ : Manager) (t : Transport) (topic payload : Bytes)
      (req : RequestData)
      → IsRequest (next_request propagator c r type_name value)
      → IsValid st
      → write_request algorithms propagator requests
          (λ bytes. none)
          r
          (proto type_name (done value))
          c
          st
        ≡ (ok payload, c₁, st₁)
      → receive algorithms requests responses
          (record { topic = topic; retained = false; payload = payload })
          t
        ≡ calls req
      → (bound : Option Bytes) × (req.request.id ≡ r.seq)
        × (req.request.method ≡ r.service_method)
        × (req.request.encoding ≡ c.encoding)
        × (bind req (some type_name) ≡ returned (ok bound))
        × (drop_empty bound ≡ drop_empty (some value))
  received_request lossless reject faithful r type_name value c c₁ st st₁ t topic payload req w v
        wrote got =
      let (payload', c', st', request, bound, wrote', got', i, m, encoding, bound_to, holds) =
        bind-write_request algorithms requests responses propagator lossless reject faithful r
          type_name value c st topic t w v in
      let one : payload' ≡ payload = ground (arith, wrote, wrote') in
      let there =
        sym got'
        ∙ ap
            (λ (bytes : Bytes).
              receive algorithms requests responses
                (record { topic = topic; retained = false; payload = bytes }) t)
            one
        ∙ got in
      let same : record { topic = topic; request = request } ≡ req = ground (arith, there) in
      (
        bound,
        ap (λ (q : RequestData). q.request.id) (sym same) ∙ i,
        ap (λ (q : RequestData). q.request.method) (sym same) ∙ m,
        ap (λ (q : RequestData). q.request.encoding) (sym same) ∙ encoding,
        ap (λ (q : RequestData). bind q (some type_name)) (sym same) ∙ bound_to,
        holds,
      )
