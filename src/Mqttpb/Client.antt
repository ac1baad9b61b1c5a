-- ===== src/Mqttpb/Client.antt =====
-- mqttpb/client.go: the topics of a call, its options, and how it ends.
pub mod Topics
pub mod Codecs
pub mod Handles
use go_reverse_rpc.Base.{ℕ, ℤ, pos, Option, none, some, List, [], ◌∷◌, Bytes, lit}
use go_reverse_rpc.Errors.{Error}
use go_reverse_rpc.Topics.{join}
use go_reverse_rpc.Context.{default_qos}
use go_reverse_rpc.Mqttpb.ClientCodec.{ClientCodec, new_client_codec, new_rpc_client, prepare}
use go_reverse_rpc.Adapter.Client.{Adapter, disconnect}
use go_reverse_rpc.Mqttpb.Conn.{Conn, new_conn}

-- `Client`, less the adapter and telemetry: the prefix of its topics, and the encoding that the
-- pool's `New` gives to new codecs.
pub record Client : Type 0 where
  pub topic_prefix : Bytes
  pub encoding : ℤ

-- `NewClient`; its `EnsureConnected` starts the loop of `Adapter.Connecting`.
unfoldable pub new_client : Bytes → ℤ → Client
new_client topic_prefix encoding = record { topic_prefix = topic_prefix; encoding = encoding }

-- `Get` of the pool: a codec that was put back, if there is one, or a new one.
unfoldable pub get_codec : {C : Type 0} → Client → Option (ClientCodec C) → ClientCodec C
unfolding new_client_codec
get_codec client none = new_client_codec client.encoding
get_codec client (some codec) = codec

-- `Close`
unfoldable pub close : Adapter → Adapter
unfolding disconnect
close a = disconnect a

-- `callOpt`
pub record CallOpt : Type 0 where
  pub encoding : ℤ

abbrev pub CallOption : Type 0
CallOption = CallOpt → CallOpt

unfoldable pub with_encoding : ℤ → CallOption
with_encoding encoding o = record o { encoding = encoding }

unfoldable pub apply_call_options : List CallOption → CallOpt → CallOpt
apply_call_options [] o = o
apply_call_options (option ∷ options) o = apply_call_options options (option o)

unfoldable pub request_topic : Bytes → Bytes → Bytes → Bytes
request_topic topic_prefix device_id id = join (topic_prefix ∷ device_id ∷ lit "request" ∷ id ∷ [])

unfoldable pub response_topic : Bytes → Bytes → Bytes → Bytes
response_topic topic_prefix device_id id =
    join (topic_prefix ∷ device_id ∷ lit "response" ∷ id ∷ [])

-- `createRPCClient`, with the id that `uuid.NewString` gives and the codec from the pool: the
-- connection, and the codec made ready for it.
unfoldable pub create_rpc_client :
    {C : Type 0} → Bytes → C → Bytes → ℤ → Bytes → ClientCodec C → Conn × ClientCodec C
unfolding request_topic response_topic
create_rpc_client topic_prefix ctx device_id encoding id codec = (
  new_conn (request_topic topic_prefix device_id id) (response_topic topic_prefix device_id id)
      default_qos,
  prepare ctx encoding codec,
)

-- `Dial` of mqttpb/conn.go, which `Call` does not use.
unfoldable pub dial : {C : Type 0} → Bytes → Bytes → ℕ → Conn × ClientCodec C
unfolding new_rpc_client
dial req_topic reply_topic qos = (new_conn req_topic reply_topic qos, new_rpc_client)

-- How the `select` of `Call` ends: with the call's error, which may be nil, or the context's.
pub data CallEnd : Type 0 where
  call_done : Option Error → CallEnd
  context_done : Error → CallEnd

unfoldable pub call_error : CallEnd → Option Error
call_error (call_done e) = e
call_error (context_done e) = some e

-- `Call`: the options, the connection and the codec, and the error that it returns.
unfoldable pub call :
    {C : Type 0}
    → Bytes
    → C
    → Bytes
    → List CallOption
    → Bytes
    → ClientCodec C
    → CallEnd
    → Conn × ClientCodec C × Option Error
unfolding apply_call_options create_rpc_client call_error
call topic_prefix ctx device_id options id codec ended =
    let o = apply_call_options options (record { encoding = pos 0 }) in
    let (conn, codec') = create_rpc_client topic_prefix ctx device_id o.encoding id codec in
    (conn, codec', call_error ended)
