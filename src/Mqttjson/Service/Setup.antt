-- ===== src/Mqttjson/Service/Setup.antt =====
-- mqttjson/server.go: a new server's subscription, on every connection of its client.
use go_reverse_rpc.Base.{ℕ, Bool, Bytes}
use go_reverse_rpc.Adapter.Callbacks.{Callback, Registry, always, no_callbacks, on_connect}
use go_reverse_rpc.Adapter.Callbacks.Repeats.{connects}
use go_reverse_rpc.Adapter.Client.{Adapter, subscribe, disconnect}
use go_reverse_rpc.Adapter.Client.Resubscribes.{Subscribed, connections, connects-subscribing}
use go_reverse_rpc.Mqttjson.Service.{subscribe_topic}

-- `initReceive`: the subscription, with the QoS that is never set. Its callback is
-- `Mqttjson.Server.receive`.
unfoldable pub init_receive : Bytes → Adapter → Adapter
unfolding subscribe
init_receive topic a = subscribe topic 0 a

abbrev State : Type 0
State = Registry (Unit {0}) Adapter × Adapter

-- The callback on connection that `NewServer` registers.
abbrev closure : Bytes → ℕ → Callback (Unit {0}) Adapter
closure topic idx = always (λ e a. init_receive topic a)

-- `NewServer`: its call of `OnConnect`. `connected` is the client's answer to `IsConnected`, and
-- `between` is what the client does before the callback is registered: `EnsureConnected` has
-- started the loop of `Adapter.Connecting`.
unfoldable pub new_server : Bool → (State → State) → Bytes → Bytes → State → State
unfolding on_connect init_receive subscribe_topic
new_server connected between prefix device_id s =
    let topic = subscribe_topic prefix device_id in
    let (idx, r, a) = on_connect connected tt (closure topic) between s in (r, a)

-- `Close`
unfoldable pub close : Adapter → Adapter
unfolding disconnect
close a = disconnect a

-- A new server on a client without other callbacks, which connects `missed` times before the
-- server's callback is registered, and `n` times after: the client subscribes to the server's
-- filter with QoS 0 once if it said that it was connected, and once for every connection after the
-- registration, but for none of those before; and if it subscribes at all, the adapter remembers
-- the filter.
pub json_server-Subscribed :
    (connected : Bool) (prefix device_id : Bytes) (missed n : ℕ) (a : Adapter)
    → Subscribed
        (subscribe_topic prefix device_id)
        0
        (connections connected n)
        a
        (connects n (new_server connected (connects missed) prefix device_id (no_callbacks, a))).1
unfolding new_server
json_server-Subscribed connected prefix device_id missed n a =
    connects-subscribing connected (subscribe_topic prefix device_id) 0 missed n a
