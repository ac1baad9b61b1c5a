-- ===== src/Mqttpb/ClientCodec/Pending.antt =====
-- What the client codec remembers between a request and its response, and from call to call.
use go_reverse_rpc.Base.{
  ℕ, ◌≡◌, refl, Option, none, ◌∷◌, Bytes, bytes_eq, ℕ_eq, ◌==◌, if◌then◌else◌, arith,
}
use go_reverse_rpc.Base.Dict.{insert, lookup, lookup-insert, lookup-erase}
use go_reverse_rpc.Errors.{Error, ok}
use go_reverse_rpc.Compressor.{Algorithms}
use go_reverse_rpc.Compressor.Buffers.{Manager}
use go_reverse_rpc.Mqttpb.Messages.{Request, Response, Wire, done, failed}
use go_reverse_rpc.Mqttpb.Codec.{unmarshal_response}
use go_reverse_rpc.Mqttpb.ClientCodec.{
  Propagator, RpcRequest, Argument, nothing, not_proto, proto, ClientCodec, method_of,
  write_request, read_response_header,
}

module _ {C : Type 0} (algorithms : Algorithms) (propagator : Propagator C) where
  -- Every way that `WriteRequest` ends, the pending calls are those before and this one.
  write_request-pending :
      (wire : Wire Request) (write : Bytes → Option Error) (r : RpcRequest) (param : Argument)
      (c : ClientCodec C) (st : Manager)
      → (write_request algorithms propagator wire write r param c st).1.pending
        ≡ insert r.seq r.service_method c.pending
  unfolding write_request
  write_request-pending wire write r nothing c st = refl
  write_request-pending wire write r not_proto c st = refl
  write_request-pending wire write r (proto type_name (failed e)) c st = refl
  write_request-pending wire write r (proto type_name (done value)) c st = refl

  -- Whatever came of a request's `WriteRequest`, a response with its number that the codec can
  -- unmarshal is read with the method of that request, its own number and its error text. Its
  -- call is then no longer pending, and all other calls are as before the request.
  pub header-write_request :
      (requests : Wire Request) (responses : Wire Response) (write : Bytes → Option Error)
      (r : RpcRequest) (param : Argument) (c : ClientCodec C) (st : Manager) (b : ℕ) (bs : Bytes)
      (response : Response) (j : ℕ)
      → unmarshal_response algorithms responses (b ∷ bs) ≡ (response, none)
      → response.id ≡ r.seq
      → let c₁ = (write_request algorithms propagator requests write r param c st).1 in
        let (header, c₂) = read_response_header algorithms propagator responses (ok (b ∷ bs)) c₁ in
        (header
          ≡ ok (record {
            service_method = r.service_method;
            seq = r.seq;
            error = response.error_message;
          }))
        × (lookup j c₂.pending ≡ (if r.seq == j then none else lookup j c.pending))
  unfolding read_response_header method_of
  header-write_request requests responses write r param c st b bs response j e i = ground (
    arith,
    write_request-pending requests write r param c st,
    lookup-insert r.seq r.seq r.service_method c.pending,
    lookup-insert j r.seq r.service_method c.pending,
    lookup-erase j r.seq (insert r.seq r.service_method c.pending),
  )
