-- ===== src/Mqttjson/ClientCodec.antt =====
-- mqttjson/rpc_client.go: the codec between `net/rpc` and the connection.
pub mod Replies
use go_reverse_rpc.Base.{ℕ, Option, none, some, [], ◌∷◌, Bytes, lit, ℕ_eq, ◌==◌, if◌then◌else◌}
use go_reverse_rpc.Base.Int.{ℤ_eq}
use go_reverse_rpc.Base.Dict.{Dict, insert, lookup, erase}
use go_reverse_rpc.Errors.{Error, Result, ok, err}
use go_reverse_rpc.Context.{status_ok}
use go_reverse_rpc.Mqttpb.ClientCodec.{
  Propagator, RpcRequest, RpcResponse, injected, extracted, method_of,
}
use go_reverse_rpc.Mqttjson.Messages.{Request, Response, Json}

pub record ClientCodec (C : Type 0) : Type 0 where
  pub ctx : Option C
  pub request : Request
  pub response : Response
  pub pending : Dict ℕ Bytes

-- The error of a response whose status is 200.
abbrev pub unspecified : Option Bytes → Bytes
unspecified none = lit "unspecified error"
unspecified (some content) = []

-- The error text of a response.
unfoldable pub response_error : Json → Response → Result Bytes
response_error json response =
    if response.status == status_ok
    then ok (unspecified response.content)
    else json.message_field response.content

module _ {C : Type 0} (json : Json) (propagator : Propagator C) where
  -- `WriteRequest`, for what `json.Marshal` makes of the argument. `write` is the connection's
  -- error.
  unfoldable pub write_request :
      (Bytes → Option Error)
      → RpcRequest
      → Result Bytes
      → ClientCodec C
      → Result Bytes × ClientCodec C
  unfolding injected
  write_request write r param c = elim param [
    | err e ↦ (err e, c)
    | ok params ↦
        let request = record (c.request) {
          id = r.seq;
          method = r.service_method;
          params = some params;
          metadata = injected propagator c.ctx (c.request.metadata);
        } in
        let c' = record c {
          pending = insert r.seq r.service_method c.pending;
          request = request;
        } in
        elim (json.encode_request request) [
          | err e ↦ (err e, c')
          | ok bytes ↦ elim (write bytes) [ some e ↦ (err e, c') | none ↦ (ok bytes, c') ]
        ]
  ]

  -- `ReadResponseHeader`, of the bytes of the next JSON value.
  unfoldable pub read_response_header : Bytes → ClientCodec C → Result RpcResponse × ClientCodec C
  unfolding extracted method_of response_error
  read_response_header bytes c =
      let (response, failure) = json.decode_response bytes c.response in
      elim failure [
        | some e ↦ (err e, record c { response = response })
        | none ↦
            let c' = record c {
              response = response;
              ctx = extracted propagator c.ctx response.metadata;
              pending = erase response.id c.pending;
            } in
            elim (response_error json response) [
              | err e ↦ (err e, c')
              | ok text ↦ (
                ok (record {
                  service_method = method_of (lookup response.id c.pending);
                  seq = response.id;
                  error = text;
                }),
                c',
              )
            ]
      ]

-- `ReadResponseBody` of a target that is not nil: what `json.Unmarshal` is given.
unfoldable pub read_response_body : {C : Type 0} → ClientCodec C → Option Bytes
read_response_body c = c.response.content
