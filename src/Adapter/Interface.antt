-- ===== src/Adapter/Interface.antt =====
-- mqttadapter/interface.go: the methods that the transports call, as operations on a state.
pub mod Laws
pub mod Filled
pub mod Holding
use go_reverse_rpc.Base.{ℕ, Bool, Option, List, Bytes}
use go_reverse_rpc.Base.Dict.{Dict}
use go_reverse_rpc.Errors.{Error, Result}
use go_reverse_rpc.Adapter.Client.{Selected}
use go_reverse_rpc.Adapter.Connecting.{Ended}
use go_reverse_rpc.Adapter.Connecting.Looping.{Pass}

-- `OnConnectCallback`, by what it does to the world.
abbrev pub OnConnectCallback : Type 0 → Type 0
OnConnectCallback W = W → W

-- `OnConnectLostCallback`
abbrev pub OnConnectLostCallback : Type 0 → Type 0
OnConnectLostCallback W = Error → W → W

-- `C` are clients and `O` their options. `W` is the state of the client and its subscriptions,
-- which callbacks act on too. `R` and `L` hold the callbacks for connections and for lost ones.
-- What the client answers to the questions that a method asks, and how its `select` ends, are
-- arguments, and so is what others do before `OnConnect` takes its lock; the payload of an object is what `json.Marshal` makes of it. The message callbacks of
-- subscriptions stand where they are defined, as `receive` of the two servers and of a connection.
pub record MqttClientAdapter (C O W R L : Type 0) : Type 0 where
  pub get_mqtt_client : C
  pub get_client_options : O
  pub on_connect_once : Bool → Bool → OnConnectCallback W → R × W → R × W
  pub on_connect_lost_once : OnConnectLostCallback W → L → L
  pub on_connect : Bool → OnConnectCallback W → (R × W → R × W) → R × W → ℕ × R × W
  pub off_connect : ℕ → R → R
  pub on_connect_lost : OnConnectLostCallback W → L → ℕ × L
  pub off_connect_lost : ℕ → L → L
  pub connect : Selected → W → Option Error × W
  pub ensure_connected : Bool → List (Pass W) → W → Ended × W
  pub connect_and_wait_for_success : Bool → List (Pass W) → W → Ended × W
  pub disconnect : W → W
  pub is_connected : (C → Bool) → Bool
  pub subscribe : Bytes → ℕ → W → W
  pub subscribe_wait : Selected → Bytes → ℕ → W → Option Error × W
  pub subscribe_multiple : Dict Bytes ℕ → W → W
  pub subscribe_multiple_wait : Selected → Dict Bytes ℕ → W → Option Error × W
  pub unsubscribe : Bytes → W → W
  pub unsubscribe_wait : Selected → Bytes → W → Option Error × W
  pub unsubscribe_all : W → W
  pub unsubscribe_all_wait : Selected → W → Option Error × W
  pub publish_bytes : Bytes → ℕ → Bool → Bytes → W → W
  pub publish_bytes_wait : Selected → Bytes → ℕ → Bool → Bytes → W → Option Error × W
  pub publish_object : Bytes → ℕ → Bool → Result Bytes → W → Option Error × W
  pub publish_object_wait : Selected → Bytes → ℕ → Bool → Result Bytes → W → Option Error × W
