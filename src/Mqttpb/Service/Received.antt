-- ===== src/Mqttpb/Service/Received.antt =====
-- A call's argument on its way from the client to the handler.
use go_reverse_rpc.Base.{◌≡◌, refl, ap, false, Option, none, some, Bytes, bytes_eq, ℕ_eq, arith}
use go_reverse_rpc.Base.Dict.{insert}
use go_reverse_rpc.Errors.{ok}
use go_reverse_rpc.Context.{returned}
use go_reverse_rpc.Compressor.{Algorithms}
use go_reverse_rpc.Compressor.Buffers.{Manager}
use go_reverse_rpc.Compressor.RoundTrip.{AllLossless}
use go_reverse_rpc.Compressor.Writes.{IsValid}
use go_reverse_rpc.Mqttpb.Messages.{
  FaithfulRequests, IsRequest, Any, Request, Response, Wire, done, drop_empty, canonical_body,
}
use go_reverse_rpc.Mqttpb.Codec.RoundTrip.{EmptyInput, unmarshal-marshal_request}
use go_reverse_rpc.Mqttpb.Server.{Transport, calls, receive, bind}
use go_reverse_rpc.Mqttpb.ClientCodec.{
  Propagator, RpcRequest, proto, ClientCodec, next_request, write_request,
}

-- The body of a message that is canonically the one that was sent.
pub arrived_body :
    (type_name value : Bytes) (arrived : Option Any)
    → canonical_body arrived
      ≡ some (record { type_url = type_name; value = drop_empty (some value) })
    → (body : Any) × (arrived ≡ some body)
      × (body.type_url ≡ type_name)
      × (drop_empty body.value ≡ drop_empty (some value))
arrived_body type_name value none e = absurd (cc)
arrived_body type_name value (some body) e = (body, refl, ground arith, ground arith)

module _ {C : Type 0} (algorithms : Algorithms) (requests : Wire Request)
    (responses : Wire Response) (propagator : Propagator C) (lossless : AllLossless algorithms)
    (reject : EmptyInput algorithms) (faithful : FaithfulRequests requests) where
  -- With compression packages and a wire format that keep their contracts, and a valid pool: a call
  -- whose argument is a protobuf message that can be marshalled, on a connection that takes it.
  -- What the client writes, the server receives as a call with the same id, method and encoding,
  -- and a handler that binds a message of the argument's type gets its bytes, up to nil for no
  -- bytes.
  pub bind-write_request :
      (r : RpcRequest) (type_name value : Bytes) (c : ClientCodec C) (st : Manager) (topic : Bytes)
      (t : Transport)
      → IsRequest (next_request propagator c r type_name value)
      → IsValid st
      → (payload : Bytes) × (c' : ClientCodec C) × (st' : Manager) × (request : Request)
        × (bound : Option Bytes) × (write_request algorithms propagator requests
              (λ bytes. none)
              r
              (proto type_name (done value))
              c
              st
            ≡ (ok payload, c', st'))
        × (receive algorithms requests responses
              (record { topic = topic; retained = false; payload = payload })
              t
            ≡ calls (record { topic = topic; request = request }))
        × (request.id ≡ r.seq)
        × (request.method ≡ r.service_method)
        × (request.encoding ≡ c.encoding)
        × (bind (record { topic = topic; request = request }) (some type_name)
            ≡ returned (ok bound))
        × (drop_empty bound ≡ drop_empty (some value))
  unfolding write_request receive bind next_request
  bind-write_request r type_name value c st topic t w v =
      let c₁ = record c { pending = insert r.seq r.service_method c.pending } in
      let sent = next_request propagator c₁ r type_name value in
      let (payload, st', request, marshals, unmarshals, same, valid) =
        unmarshal-marshal_request algorithms lossless reject requests sent st faithful w v in
      let (body, here, named, holds) =
        arrived_body type_name value request.body (ap (λ (q : Request). q.body) same.message) in
      (
        payload,
        record c₁ { request = sent },
        st',
        request,
        body.value,
        ground (arith, marshals),
        ground (arith, unmarshals),
        ap (λ (q : Request). q.id) same.message,
        ap (λ (q : Request). q.method) same.message,
        ap (λ (q : Request). q.encoding) same.message,
        ground (arith, here, named),
        holds,
      )
