-- ===== src/Mqttpb/Client/Handles.antt =====
-- mqttpb/client.go: the methods of a client that its adapter carries out.
use go_reverse_rpc.Base.{ℕ, Bool, Bytes}
use go_reverse_rpc.Adapter.Interface.{MqttClientAdapter, OnConnectCallback}

module _ {C O W R L : Type 0} (c : MqttClientAdapter C O W R L) where
  -- `Client`
  unfoldable pub client : MqttClientAdapter C O W R L
  client = c

  -- `OnConnect`
  unfoldable pub on_connect : Bool → OnConnectCallback W → (R × W → R × W) → R × W → ℕ × R × W
  on_connect connected cb between s = c.on_connect connected cb between s

  -- `IsConnected`
  unfoldable pub is_connected : (C → Bool) → Bool
  is_connected ask = c.is_connected ask

  -- `Subscribe`
  unfoldable pub subscribe : Bytes → ℕ → W → W
  subscribe topic qos w = c.subscribe topic qos w
