-- ===== src/Mqttjson/Client.antt =====
-- mqttjson/client.go, and `Dial` of mqttjson/conn.go: the topics, the connection and the codec of a
-- call.
pub mod Calls
pub mod Handles
use go_reverse_rpc.Base.{pos, Option, none, some, List, [], ◌∷◌, Bytes, lit}
use go_reverse_rpc.Errors.{Error}
use go_reverse_rpc.Topics.{join}
use go_reverse_rpc.Adapter.Client.{Adapter, disconnect}
use go_reverse_rpc.Context.{default_qos}
use go_reverse_rpc.Mqttpb.Client.{CallEnd, call_error}
use go_reverse_rpc.Mqttpb.Conn.{Conn, new_conn}
use go_reverse_rpc.Mqttjson.Messages.{Response, empty_request}
use go_reverse_rpc.Mqttjson.ClientCodec.{ClientCodec}

abbrev pub empty_response : Response
empty_response = record { id = 0; method = []; status = pos 0; metadata = []; content = none }

-- `newClientCodec`
unfoldable pub new_client_codec : {C : Type 0} → ClientCodec C
new_client_codec = record {
  ctx = none;
  request = empty_request;
  response = empty_response;
  pending = [];
}

-- `SetContext`
unfoldable pub set_context : {C : Type 0} → C → ClientCodec C → ClientCodec C
set_context ctx c = record c { ctx = some ctx }

unfoldable pub request_topic : Bytes → Bytes → Bytes → Bytes
request_topic topic_prefix target_id id = join (topic_prefix ∷ target_id ∷ lit "request" ∷ id ∷ [])

unfoldable pub response_topic : Bytes → Bytes → Bytes → Bytes
response_topic topic_prefix target_id id =
    join (topic_prefix ∷ target_id ∷ lit "response" ∷ id ∷ [])

-- `Dial`: a new connection, and a new codec on it.
unfoldable pub dial : {C : Type 0} → Bytes → Bytes → Conn × ClientCodec C
unfolding new_client_codec
dial request_topic response_topic =
    (new_conn request_topic response_topic default_qos, new_client_codec)

-- `createRPCClient`, with the id that `uuid.NewString` gives.
unfoldable pub create_rpc_client : {C : Type 0} → Bytes → Bytes → Bytes → Conn × ClientCodec C
unfolding request_topic response_topic dial
create_rpc_client topic_prefix target_id id =
    dial (request_topic topic_prefix target_id id) (response_topic topic_prefix target_id id)

-- `Call`: the connection, the codec, and the error that it returns. The context `ctx` reaches
-- neither of the two.
unfoldable pub call :
    {C : Type 0} → Bytes → C → Bytes → Bytes → CallEnd → Conn × ClientCodec C × Option Error
unfolding create_rpc_client
call topic_prefix ctx target_id id ended =
    let (conn, codec) = create_rpc_client topic_prefix target_id id in
    (conn, codec, call_error ended)
