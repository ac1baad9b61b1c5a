-- ===== src/Mqttjson/Client/Handles.antt =====
-- mqttjson/client.go: a client as a handle of its adapter, which other clients and servers may
-- share.
use go_reverse_rpc.Base.{ℕ, ◌≡◌, refl, Bool, false, Option, none, List, ◌∷◌, Bytes}
use go_reverse_rpc.Errors.{Error}
use go_reverse_rpc.Server.{Telemetry}
use go_reverse_rpc.Adapter.Client.{Adapter, Selected}
use go_reverse_rpc.Adapter.Connecting.{Ended, stopped}
use go_reverse_rpc.Adapter.Connecting.Looping.{Pass}
use go_reverse_rpc.Adapter.Connecting.Disconnected.{Action, act_all, disconnect-connect_and_wait}
use go_reverse_rpc.Adapter.Interface.{MqttClientAdapter, OnConnectCallback}
use go_reverse_rpc.Adapter.Interface.Filled.{adapter_of}

-- `Client`, less its adapter. `V` is the world that telemetry acts on.
pub record Client (V : Type 0) : Type 0 where
  pub telemetry : Telemetry V
  pub topic_prefix : Bytes

-- `SetTelemetry`
unfoldable pub set_telemetry : {V : Type 0} → Telemetry V → Client V → Client V
set_telemetry tel s = record s { telemetry = tel }

module _ {C O W R L : Type 0} (c : MqttClientAdapter C O W R L) where
  -- `NewClient`; `noop` is the telemetry that `NewNoop` gives. The loop that `EnsureConnected`
  -- starts makes the passes.
  unfoldable pub new_client :
      {V : Type 0} → Telemetry V → Bool → List (Pass W) → Bytes → W → Client V × Ended × W
  new_client noop connected passes topic_prefix w =
      let (ended, w') = c.ensure_connected connected passes w in
      (record { telemetry = noop; topic_prefix = topic_prefix }, ended, w')

  -- `OnConnect`
  unfoldable pub on_connect : Bool → OnConnectCallback W → (R × W → R × W) → R × W → ℕ × R × W
  on_connect connected cb between s = c.on_connect connected cb between s

  -- `IsConnected`
  unfoldable pub is_connected : (C → Bool) → Bool
  is_connected ask = c.is_connected ask

  -- `Subscribe`
  unfoldable pub subscribe : Bytes → ℕ → W → W
  subscribe topic qos w = c.subscribe topic qos w

  -- `Close`: the error, which is nil.
  unfoldable pub close_client : W → Option Error × W
  close_client w = (none, c.disconnect w)

-- Once a client was closed, whatever is called later, another client that is made on the same
-- adapter stays without a connection, if the MQTT client has none: its loop ends in the first pass
-- as stopped, whatever is called before that pass, and makes no call of the MQTT client.
pub new_client-close_client :
    {C O V : Type 0} (client : C) (options : O) (noop : Telemetry V) (topic_prefix : Bytes)
    (a : Adapter) (later others : List Action) (is_connected : Bool) (selected : Selected)
    (passes : List (Pass Adapter))
    → let adapter = adapter_of client options in
      let a' = act_all later (close_client adapter a).1 in
      (new_client adapter noop false
        (record { others = act_all others; is_connected = is_connected; selected = selected }
          ∷ passes)
        topic_prefix
        a')
      ≡ (record { telemetry = noop; topic_prefix = topic_prefix }, stopped, act_all others a')
unfolding new_client close_client
new_client-close_client client options noop topic_prefix a later others is_connected selected
      passes =
    rw (disconnect-connect_and_wait a later others is_connected selected passes) refl
