-- ===== src/Mqttjson/Conn.antt =====
-- mqttjson/conn.go: the connection of a JSON call, on the adapter's interface. Its channel and its
-- reader are those of mqttpb/conn.go.
pub mod Leaks
use go_reverse_rpc.Base.{ℕ, Bool, false, Option, none, Bytes, length}
use go_reverse_rpc.Errors.{Error, Result, ok, err}
use go_reverse_rpc.Context.{default_qos}
use go_reverse_rpc.Adapter.Interface.{MqttClientAdapter}
use go_reverse_rpc.Mqttpb.Conn
use go_reverse_rpc.Mqttpb.Conn.{Given, new_conn}

-- `rpcConn`
abbrev pub RpcConn : Type 0
RpcConn = Conn.Conn

-- The callback of the subscription, up to its send.
abbrev pub receive : Bytes → RpcConn → RpcConn
receive = Conn.receive

-- `Read`, up to its receive.
abbrev pub read : ℕ → RpcConn → Given × RpcConn
read = Conn.read

module _ {C O W R L : Type 0} (c : MqttClientAdapter C O W R L) where
  -- `newRPCConn`, with the client's answer to the question of `OnConnect`. The index that
  -- `OnConnect` returns is dropped.
  unfoldable pub new_rpc_conn : Bool → (R × W → R × W) → Bytes → Bytes → ℕ → R × W → RpcConn × R × W
  unfolding new_conn
  new_rpc_conn connected between request_topic response_topic qos s =
      let (idx, r, w) = c.on_connect connected (c.subscribe response_topic qos) between s in
      (new_conn request_topic response_topic qos, r, w)

  -- `Write`: the count of bytes, and the error, which is nil.
  unfoldable pub write : Bytes → RpcConn → W → ℕ × Option Error × W
  write content conn w =
      (length content, none, c.publish_bytes conn.request_topic conn.qos false content w)

  -- `Close`
  unfoldable pub close : RpcConn → W → RpcConn × W
  unfolding Conn.close
  close conn w = (Conn.close conn, c.unsubscribe conn.response_topic w)

  -- What the codec writes: nothing, when it fails to encode the request.
  unfoldable pub write_encoded : Result Bytes → RpcConn → W → W
  unfolding write
  write_encoded (err e) conn w = w
  write_encoded (ok content) conn w = (write content conn w).2

  -- What `Call` of mqttjson/client.go does with the adapter: it opens the connection, writes the
  -- request, waits, and closes when it returns. `wait` is what happens to the adapter while it
  -- waits, such as connections of its client.
  unfoldable pub use_conn :
      Bool → (R × W → R × W) → Bytes → Bytes → Result Bytes → (R × W → R × W) → R × W → R × W
  unfolding new_rpc_conn write_encoded close
  use_conn connected between request_topic response_topic encoded wait s =
      let (conn, r, w) =
        new_rpc_conn connected between request_topic response_topic default_qos s in
      let (r', w') = wait (r, write_encoded encoded conn w) in (r', (close conn w').1)
