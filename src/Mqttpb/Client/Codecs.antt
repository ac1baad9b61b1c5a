-- ===== src/Mqttpb/Client/Codecs.antt =====
-- What a codec of the pool brings to a call of the client, from `NewClient` and from earlier calls.
use go_reverse_rpc.Base.{ℤ, ◌≡◌, ◌∙◌, Option, some, Bytes, bytes_eq, List, [], ◌∷◌, refl}
use go_reverse_rpc.Base.Dict.{Dict, lookup}
use go_reverse_rpc.Errors.{Error}
use go_reverse_rpc.Compressor.{Algorithms}
use go_reverse_rpc.Compressor.Buffers.{Manager}
use go_reverse_rpc.Mqttpb.Messages.{Request, Wire, done, encoding_plain}
use go_reverse_rpc.Mqttpb.Client.{
  CallOption, with_encoding, apply_call_options, Client, get_codec, CallEnd, call,
}
use go_reverse_rpc.Mqttpb.ClientCodec.{
  Propagator, RpcRequest, proto, ClientCodec, prepare, write_request,
}

module _ {C : Type 0} (algorithms : Algorithms) (propagator : Propagator C)
    (wire : Wire Request) where
  -- The codec after a call that gets its codec ready and writes a message.
  abbrev pub call_with :
      (Bytes → Option Error)
      → C
      → ℤ
      → RpcRequest
      → Bytes
      → Bytes
      → ClientCodec C
      → Manager
      → ClientCodec C
  call_with write ctx encoding r type_name value c st =
      (write_request algorithms propagator wire write r (proto type_name (done value))
        (prepare ctx encoding c) st).1

  -- Two calls in a row with one codec. A metadata key that the first call's trace context sets, and
  -- the second call's does not touch, is in the second request with the first call's value.
  pub stale_metadata :
      (write : Bytes → Option Error) (first second : C) (encoding encoding' : ℤ) (r r' : RpcRequest)
      (type_name value type_name' value' : Bytes) (c : ClientCodec C) (st st' : Manager)
      (k v : Bytes)
      → lookup k (propagator.inject first c.request.metadata) ≡ some v
      → ((metadata : Dict Bytes Bytes)
          → lookup k (propagator.inject second metadata) ≡ lookup k metadata)
      → lookup k
          (call_with write second encoding' r' type_name' value'
            (call_with write first encoding r type_name value c st)
            st').request.metadata
        ≡ some v
  unfolding write_request prepare
  stale_metadata write first second encoding encoding' r r' type_name value type_name' value' c st
        st' k v set keeps =
      keeps (propagator.inject first c.request.metadata) ∙ set

-- The options that set encodings.
abbrev pub encodings_options : List ℤ → List CallOption
encodings_options [] = []
encodings_options (encoding ∷ encodings) = with_encoding encoding ∷ encodings_options encodings

-- The last of some encodings.
abbrev pub last_or : ℤ → List ℤ → ℤ
last_or default [] = default
last_or default (encoding ∷ encodings) = last_or encoding encodings

apply_call_options-last :
    (encodings : List ℤ) (default : ℤ)
    → (apply_call_options (encodings_options encodings) (record { encoding = default })).encoding
      ≡ last_or default encodings
unfolding apply_call_options with_encoding
apply_call_options-last [] default = refl
apply_call_options-last (encoding ∷ encodings) default = apply_call_options-last encodings encoding

module _ {C : Type 0} (algorithms : Algorithms) (propagator : Propagator C)
    (wire : Wire Request) where
  -- The request of a call whose argument can be marshalled has the encoding of the last
  -- `WithEncoding` among the call's options, and the plain one without such an option, whatever
  -- encoding `NewClient` was given, and whichever codec comes from the pool.
  pub write_request-call :
      (write : Bytes → Option Error) (client : Client) (ctx : C) (device_id : Bytes)
      (encodings : List ℤ) (id : Bytes) (pooled : Option (ClientCodec C)) (ended : CallEnd)
      (r : RpcRequest) (type_name value : Bytes) (st : Manager)
      → (write_request algorithms propagator wire write r
          (proto type_name (done value))
          (call client.topic_prefix ctx device_id
            (encodings_options encodings)
            id
            (get_codec client pooled)
            ended).1
          st).1.request.encoding
        ≡ last_or encoding_plain encodings
  unfolding write_request call prepare
  write_request-call write client ctx device_id encodings id pooled ended r type_name value st =
      apply_call_options-last encodings encoding_plain
