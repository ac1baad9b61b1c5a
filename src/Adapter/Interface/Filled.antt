-- ===== src/Adapter/Interface/Filled.antt =====
-- mqttadapter/mqtt.go as an implementation of mqttadapter/interface.go.
use go_reverse_rpc.Base.{refl, bytes_eq, ℕ_eq}
use go_reverse_rpc.Base.Dict.{keys}
use go_reverse_rpc.Errors.{Error}
use go_reverse_rpc.Adapter.Callbacks
use go_reverse_rpc.Adapter.Callbacks.{
  Callback, always, Registry, on_connect, on_connect_lost, off, run, run_all, fire,
}
use go_reverse_rpc.Adapter.Client
use go_reverse_rpc.Adapter.Client.{Adapter, request, subscribed, unsubscribed}
use go_reverse_rpc.Adapter.Client.Laws.{
  remembers, remembers-perform, store_all-requests, subscribes, subscribes_multiple, unsubscribes,
  unsubscribes_all,
}
use go_reverse_rpc.Adapter.Connecting.Looping.{connect_and_wait}
use go_reverse_rpc.Adapter.Interface.{MqttClientAdapter}
use go_reverse_rpc.Adapter.Interface.Holding.{
  RegistryHolds, on_connect-RegistryHolds, fire-RegistryHolds,
}
use go_reverse_rpc.Adapter.Interface.Laws.{Lawful}

abbrev pub Connects : Type 0
Connects = Registry (Unit {0}) Adapter

abbrev pub Losses : Type 0
Losses = Registry Error Adapter

-- The client and the options are set when the adapter is made, and do not change.
abbrev pub adapter_of : {C O : Type 0} → C → O → MqttClientAdapter C O Adapter Connects Losses
adapter_of client options = record {
  get_mqtt_client = client;
  get_client_options = options;
  on_connect_once =
      λ connected again act s. Callbacks.on_connect_once connected again tt (λ e. act) s;
  on_connect_lost_once = λ act l. Callbacks.on_connect_lost_once act l;
  on_connect =
      λ connected act between s. on_connect connected tt (λ idx. always (λ e. act)) between s;
  off_connect = off;
  on_connect_lost = λ act l. on_connect_lost (λ idx. always act) l;
  off_connect_lost = off;
  connect = Client.connect;
  ensure_connected = connect_and_wait;
  connect_and_wait_for_success = connect_and_wait;
  disconnect = Client.disconnect;
  is_connected = λ ask. ask client;
  subscribe = Client.subscribe;
  subscribe_wait = Client.subscribe_wait;
  subscribe_multiple = Client.subscribe_multiple;
  subscribe_multiple_wait = Client.subscribe_multiple_wait;
  unsubscribe = Client.unsubscribe;
  unsubscribe_wait = Client.unsubscribe_wait;
  unsubscribe_all = Client.unsubscribe_all;
  unsubscribe_all_wait = Client.unsubscribe_all_wait;
  publish_bytes = Client.publish_bytes;
  publish_bytes_wait = Client.publish_bytes_wait;
  publish_object = Client.publish_object;
  publish_object_wait = Client.publish_object_wait;
}

-- `fire` is the handler that `New` gives the client.
module _ {C O : Type 0} (client : C) (options : O) where
  unfoldable pub adapter_laws : Lawful (adapter_of client options)
  unfolding Client.subscribe Client.subscribe_multiple Client.unsubscribe Client.unsubscribe_all
      Client.publish_bytes Client.disconnect Client.subscribe_wait Client.subscribe_multiple_wait
      Client.unsubscribe_wait Client.unsubscribe_all_wait Client.publish_bytes_wait
  adapter_laws = record {
    remembers = remembers;
    history = λ a. a.requests;
    Holds = RegistryHolds;
    connected = fire tt;
    remembers-subscribe = λ topic t qos a. remembers-perform topic (subscribes t qos) a;
    history-subscribe = λ t qos a. refl;
    remembers-subscribe_multiple =
        λ topic filters a. remembers-perform topic (subscribes_multiple filters) a;
    history-subscribe_multiple =
        λ filters a. store_all-requests (keys filters) (request (subscribed filters) a);
    remembers-unsubscribe = λ topic t a. remembers-perform topic (unsubscribes t) a;
    history-unsubscribe = λ t a. refl;
    remembers-unsubscribe_all = λ topic a. remembers-perform topic unsubscribes_all a;
    remembers-publish_bytes = λ topic t qos retained content a. refl;
    history-publish_bytes = λ t qos retained content a. refl;
    remembers-disconnect = λ topic a. refl;
    history-disconnect = λ a. refl;
    subscribe-waits = λ selected t qos a. refl;
    subscribe_multiple-waits = λ selected filters a. refl;
    unsubscribe-waits = λ selected t a. refl;
    unsubscribe_all-waits = λ selected a. refl;
    publish_bytes-waits = λ selected t qos retained content a. refl;
    on_connect-Holds = on_connect-RegistryHolds;
    connected-Holds = fire-RegistryHolds;
  }
