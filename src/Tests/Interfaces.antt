-- ===== src/Tests/Interfaces.antt =====
-- Calls of the adapter's interface on the adapter itself.
use go_reverse_rpc.Base.{ℕ, ◌≡◌, true, false, none, [], ◌∷◌, lit, bytes_eq, ℕ_eq, ℕ_discrete}
use go_reverse_rpc.Errors.{ok, err, eof}
use go_reverse_rpc.Adapter.Callbacks.{no_callbacks}
use go_reverse_rpc.Adapter.Client.{Adapter, subscribed, token_done}
use go_reverse_rpc.Adapter.Client.Laws.{subscribes}
use go_reverse_rpc.Adapter.Connecting.{stopped}
use go_reverse_rpc.Adapter.Connecting.Disconnected.{act_all, performs, connects_again}
use go_reverse_rpc.Adapter.Interface.{MqttClientAdapter}
use go_reverse_rpc.Adapter.Interface.Laws.{Lawful}
use go_reverse_rpc.Adapter.Interface.Filled.{adapter_of, adapter_laws, Connects, Losses}
use go_reverse_rpc.Mqttjson.Client.Handles.{new_client, close_client, new_client-close_client}
use go_reverse_rpc.Tests.Service.{quiet}
use go_reverse_rpc.Mqttjson.Conn.Leaks.{Called, use_all, connected-use_all}

abbrev fresh : Adapter
fresh = record {
  subscribe_map = (lit "known", true) ∷ [];
  stop_retry_connect = false;
  requests = [];
}

abbrev adapter : MqttClientAdapter ℕ ℕ Adapter Connects Losses
adapter = adapter_of 0 0

abbrev first : Called
first = record {
  connected = true;
  request_topic = lit "d/request/1";
  response_topic = lit "d/response/1";
  encoded = ok (lit "x");
}

abbrev second : Called
second = record {
  connected = false;
  request_topic = lit "d/request/2";
  response_topic = lit "d/response/2";
  encoded = err eof;
}

abbrev laws : Lawful adapter
laws = adapter_laws {C = ℕ} {O = ℕ} 0 0

fresh-Holds : laws.Holds no_callbacks []
unfolding adapter_laws no_callbacks
fresh-Holds = tt

connected-use_all_example :
    let (r', w') = use_all adapter laws (first ∷ second ∷ []) (no_callbacks, fresh) in
    let (r'', w'') = laws.connected (r', w') in
    (laws.remembers (lit "d/response/2") w' ≡ false)
    × (laws.history w''
        ≡ subscribed ((lit "d/response/2", 0) ∷ [])
          ∷ subscribed ((lit "d/response/1", 0) ∷ [])
          ∷ laws.history w')
    × (laws.remembers (lit "d/response/2") w'' ≡ true)
unfolding bytes_eq ℕ_discrete
connected-use_all_example =
    connected-use_all adapter laws (first ∷ second ∷ []) (lit "d/response/2") no_callbacks fresh
      fresh-Holds

new_client-close_client_example :
    let a = act_all (performs (subscribes (lit "t") 1) ∷ []) (close_client adapter fresh).1 in
    new_client adapter quiet false
      (record {
        others = act_all (connects_again (token_done none) ∷ []);
        is_connected = false;
        selected = token_done none;
      }
        ∷ [])
      (lit "p")
      a
    ≡ (
      record { telemetry = quiet; topic_prefix = lit "p" },
      stopped,
      act_all (connects_again (token_done none) ∷ []) a,
    )
new_client-close_client_example =
    new_client-close_client {C = ℕ} {O = ℕ} 0 0 quiet (lit "p") fresh
      (performs (subscribes (lit "t") 1) ∷ []) (connects_again (token_done none) ∷ []) false
      (token_done none) []
