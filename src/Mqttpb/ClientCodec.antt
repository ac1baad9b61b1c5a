-- ===== src/Mqttpb/ClientCodec.antt =====
-- mqttpb/rpc_client.go: the codec between `net/rpc` and the connection.
pub mod Pending
use go_reverse_rpc.Base.{
  ℕ, ℤ, Option, none, some, [], ◌∷◌, Bytes, bytes_eq, ℕ_eq, ◌==◌, if◌then◌else◌,
}
use go_reverse_rpc.Base.Dict.{Dict, insert, lookup, erase}
use go_reverse_rpc.Errors.{
  Error, invalid_request_body, message_type_not_match, eof, Result, ok, err,
}
use go_reverse_rpc.Compressor.{Algorithms}
use go_reverse_rpc.Compressor.Buffers.{Manager}
use go_reverse_rpc.Mqttpb.Messages.{
  Any, Request, Response, encoding_brotli, empty_request, empty_response, Wire, Marshalled, done,
  failed,
}
use go_reverse_rpc.Mqttpb.Codec.{marshal_request, unmarshal_response}

-- `propagation.TextMapPropagator`, over contexts `C`.
pub record Propagator (C : Type 0) : Type 0 where
  pub inject : C → Dict Bytes Bytes → Dict Bytes Bytes
  pub extract : C → Dict Bytes Bytes → C

-- `rpc.Request` and `rpc.Response`.
pub record RpcRequest : Type 0 where
  pub service_method : Bytes
  pub seq : ℕ

pub record RpcResponse : Type 0 where
  pub service_method : Bytes
  pub seq : ℕ
  pub error : Bytes

-- An argument or a target, as `interface{}`: nil, no protobuf message, or a message by the name of
-- its Go type and what `proto.Marshal` makes of it.
pub data Argument : Type 0 where
  nothing not_proto : Argument
  proto : Bytes → Marshalled → Argument

pub record ClientCodec (C : Type 0) : Type 0 where
  pub encoding : ℤ
  pub ctx : Option C
  pub request : Request
  pub response : Response
  pub pending : Dict ℕ Bytes

-- A read of the map of pending calls: the empty string for a key that is not there.
unfoldable pub method_of : Option Bytes → Bytes
method_of none = []
method_of (some method) = method

module _ {C : Type 0} where
  -- `NewRPCClientCodecWithConn`
  unfoldable pub new_client_codec : ℤ → ClientCodec C
  new_client_codec encoding = record {
    encoding = encoding;
    ctx = none;
    request = empty_request;
    response = empty_response;
    pending = [];
  }

  -- `NewRPCClientCodec`, without a connection.
  unfoldable pub new_rpc_client_codec : ℤ → ClientCodec C
  unfolding new_client_codec
  new_rpc_client_codec encoding = new_client_codec encoding

  -- The codec that `NewRPCClient` makes.
  unfoldable pub new_rpc_client : ClientCodec C
  unfolding new_client_codec
  new_rpc_client = new_client_codec encoding_brotli

  -- `Reset`: the connection alone changes, and it is no part of this state.
  unfoldable pub reset_codec : ClientCodec C → ClientCodec C
  reset_codec c = c

  unfoldable pub set_encoding : ℤ → ClientCodec C → ClientCodec C
  set_encoding encoding c = record c { encoding = encoding }

  unfoldable pub set_context : C → ClientCodec C → ClientCodec C
  set_context ctx c = record c { ctx = some ctx }

  -- A codec from the pool, as `createRPCClient` prepares it.
  unfoldable pub prepare : C → ℤ → ClientCodec C → ClientCodec C
  unfolding reset_codec set_encoding set_context
  prepare ctx encoding c = set_context ctx (set_encoding encoding (reset_codec c))

  -- Whether an optional context adds its keys to the request's metadata.
  unfoldable pub injected : Propagator C → Option C → Dict Bytes Bytes → Dict Bytes Bytes
  injected propagator none metadata = metadata
  injected propagator (some ctx) metadata = propagator.inject ctx metadata

  -- The request of a call, from the codec's previous one.
  unfoldable pub next_request : Propagator C → ClientCodec C → RpcRequest → Bytes → Bytes → Request
  unfolding injected
  next_request propagator c r type_name value = record (c.request) {
    id = r.seq;
    encoding = c.encoding;
    method = r.service_method;
    body = some (record { type_url = type_name; value = some value });
    metadata = injected propagator c.ctx (c.request.metadata);
  }

  unfoldable pub extracted : Propagator C → Option C → Dict Bytes Bytes → Option C
  extracted propagator none metadata = none
  extracted propagator (some ctx) [] = some ctx
  extracted propagator (some ctx) (entry ∷ metadata) =
      some (propagator.extract ctx (entry ∷ metadata))

module _ {C : Type 0} (algorithms : Algorithms) (propagator : Propagator C) where
  -- The second half of `WriteRequest`: marshal and write. `write` is `conn.Write`'s error.
  unfoldable pub send_request :
      Wire Request → (Bytes → Option Error) → Request → Manager → Result Bytes × Manager
  send_request wire write request st =
      let (result, st') = marshal_request algorithms wire request st in
      elim result [
        | err e ↦ (err e, st')
        | ok bytes ↦ elim (write bytes) [ some e ↦ (err e, st') | none ↦ (ok bytes, st') ]
      ]

  -- `WriteRequest`, with the bytes that it has written.
  unfoldable pub write_request :
      Wire Request
      → (Bytes → Option Error)
      → RpcRequest
      → Argument
      → ClientCodec C
      → Manager
      → Result Bytes × ClientCodec C × Manager
  unfolding next_request send_request
  write_request wire write r param c st =
      let c₁ = record c { pending = insert r.seq r.service_method c.pending } in
      elim param [
        | nothing ↦ (err invalid_request_body, c₁, st)
        | not_proto ↦ (err invalid_request_body, c₁, st)
        | proto type_name marshalled ↦ elim marshalled [
          | failed e ↦ (err e, c₁, st)
          | done value ↦
              let request = next_request propagator c₁ r type_name value in
              let (result, st') = send_request wire write request st in
              (result, record c₁ { request = request }, st')
        ]
      ]

  -- `ReadResponseHeader`, of what `io.ReadAll(c.conn)` gives.
  unfoldable pub read_response_header :
      Wire Response → Result Bytes → ClientCodec C → Result RpcResponse × ClientCodec C
  unfolding extracted method_of
  read_response_header wire read c = elim read [
    | err e ↦ (err e, record c { response = empty_response })
    | ok [] ↦ (err eof, record c { response = empty_response })
    | ok (b ∷ bs) ↦
        let (response, failure) = unmarshal_response algorithms wire (b ∷ bs) in
        elim failure [
          | some e ↦ (err e, record c { response = response })
          | none ↦ (
            ok (record {
              service_method = method_of (lookup response.id c.pending);
              seq = response.id;
              error = response.error_message;
            }),
            record c {
              response = response;
              ctx = extracted propagator c.ctx response.metadata;
              pending = erase response.id c.pending;
            },
          )
        ]
  ]

-- `ReadResponseBody`: the bytes that the target is unmarshalled from, if any.
unfoldable pub read_response_body : {C : Type 0} → Argument → ClientCodec C → Result (Option Bytes)
read_response_body nothing c = ok none
read_response_body not_proto c = err invalid_request_body
read_response_body (proto type_name marshalled) c = elim c.response.body [
  | none ↦ ok none
  | some body ↦ elim body.value [
    | none ↦ ok none
    | some [] ↦ ok none
    | some (b ∷ bs) ↦
        if body.type_url == type_name then ok (some (b ∷ bs)) else err message_type_not_match
  ]
]
