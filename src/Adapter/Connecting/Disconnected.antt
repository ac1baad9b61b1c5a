-- ===== src/Adapter/Connecting/Disconnected.antt =====
-- mqttadapter/mqtt.go: an adapter after `Disconnect`.
use go_reverse_rpc.Base.{ℕ, ◌≡◌, refl, Bool, true, false, List, [], ◌∷◌, Bytes, bytes_eq, arith}
use go_reverse_rpc.Base.Dict.{keys}
use go_reverse_rpc.Errors.{Result, ok, err}
use go_reverse_rpc.Adapter.Client.{
  Adapter, Selected, subscribed, unsubscribed, request, store, delete, connect, disconnect,
  store_all, delete_all, subscribe, subscribe_wait, subscribe_multiple, subscribe_multiple_wait,
  unsubscribe, unsubscribe_wait, unsubscribe_all, unsubscribe_all_wait, publish_bytes,
  publish_bytes_wait, publish_object, publish_object_wait,
}
use go_reverse_rpc.Adapter.Client.Laws.{
  Op, subscribes, subscribes_wait, subscribes_multiple, subscribes_multiple_wait, unsubscribes_all,
  unsubscribes_all_wait, unsubscribes, unsubscribes_wait, perform,
}
use go_reverse_rpc.Adapter.Connecting.{stopped}
use go_reverse_rpc.Adapter.Connecting.Looping.{Pass, retry_on, connect_and_wait}

-- A call of one of the methods that act on the client, waiting or not.
pub data Action : Type 0 where
  performs : Op → Action
  publishes_bytes : Bytes → ℕ → Bool → Bytes → Action
  publishes_bytes_wait : Selected → Bytes → ℕ → Bool → Bytes → Action
  publishes_object : Bytes → ℕ → Bool → Result Bytes → Action
  publishes_object_wait : Selected → Bytes → ℕ → Bool → Result Bytes → Action
  connects_again : Selected → Action
  disconnects : Action

abbrev pub act : Action → Adapter → Adapter
act (performs op) a = perform op a
act (publishes_bytes topic qos retained content) a = publish_bytes topic qos retained content a
act (publishes_bytes_wait selected topic qos retained content) a =
    (publish_bytes_wait selected topic qos retained content a).1
act (publishes_object topic qos retained payload) a =
    (publish_object topic qos retained payload a).1
act (publishes_object_wait selected topic qos retained payload) a =
    (publish_object_wait selected topic qos retained payload a).1
act (connects_again selected) a = (connect selected a).1
act disconnects a = disconnect a

abbrev pub act_all : List Action → Adapter → Adapter
act_all [] a = a
act_all (action ∷ actions) a = act_all actions (act action a)

stop-store_all :
    (topics : List Bytes) (a : Adapter)
    → (store_all topics a).stop_retry_connect ≡ a.stop_retry_connect
unfolding store_all
stop-store_all [] a = refl
stop-store_all (t ∷ ts) a = stop-store_all ts (store t a)

stop-delete_all :
    (topics : List Bytes) (a : Adapter)
    → (delete_all topics a).stop_retry_connect ≡ a.stop_retry_connect
unfolding delete_all
stop-delete_all [] a = refl
stop-delete_all (t ∷ ts) a = stop-delete_all ts (delete t a)

stop-perform : (op : Op) (a : Adapter) → (perform op a).stop_retry_connect ≡ a.stop_retry_connect
unfolding subscribe subscribe_wait subscribe_multiple subscribe_multiple_wait unsubscribe
    unsubscribe_wait unsubscribe_all unsubscribe_all_wait
stop-perform (subscribes topic qos) a = refl
stop-perform (subscribes_wait selected topic qos) a = refl
stop-perform (subscribes_multiple filters) a =
    stop-store_all (keys filters) (request (subscribed filters) a)
stop-perform (subscribes_multiple_wait selected filters) a =
    stop-store_all (keys filters) (request (subscribed filters) a)
stop-perform unsubscribes_all a =
    stop-delete_all (keys a.subscribe_map) (request (unsubscribed (keys a.subscribe_map)) a)
stop-perform (unsubscribes_all_wait selected) a =
    stop-delete_all (keys a.subscribe_map) (request (unsubscribed (keys a.subscribe_map)) a)
stop-perform (unsubscribes topic) a = refl
stop-perform (unsubscribes_wait selected topic) a = refl

stop-act :
    (action : Action) (a : Adapter)
    → a.stop_retry_connect ≡ true
    → (act action a).stop_retry_connect ≡ true
unfolding publish_bytes publish_bytes_wait publish_object publish_object_wait connect disconnect
stop-act (performs op) a h = ground (arith, stop-perform op a)
stop-act (publishes_bytes topic qos retained content) a h = h
stop-act (publishes_bytes_wait selected topic qos retained content) a h = h
stop-act (publishes_object topic qos retained (err e)) a h = h
stop-act (publishes_object topic qos retained (ok content)) a h = h
stop-act (publishes_object_wait selected topic qos retained (err e)) a h = h
stop-act (publishes_object_wait selected topic qos retained (ok content)) a h = h
stop-act (connects_again selected) a h = h
stop-act disconnects a h = refl

stop-act_all :
    (actions : List Action) (a : Adapter)
    → a.stop_retry_connect ≡ true
    → (act_all actions a).stop_retry_connect ≡ true
stop-act_all [] a h = h
stop-act_all (action ∷ actions) a h = stop-act_all actions (act action a) (stop-act action a h)

-- Once `Disconnect` was called, whatever methods are called later, a client that is not connected
-- stays so: `ConnectAndWaitForSuccess` and `EnsureConnected` end in their first pass as stopped,
-- whatever is called before that pass, and make no call of the client.
pub disconnect-connect_and_wait :
    (a : Adapter) (later others : List Action) (is_connected : Bool) (selected : Selected)
    (passes : List (Pass Adapter))
    → let a' = act_all later (disconnect a) in
      connect_and_wait false
        (record { others = act_all others; is_connected = is_connected; selected = selected }
          ∷ passes)
        a'
      ≡ (stopped, act_all others a')
unfolding connect_and_wait retry_on disconnect
disconnect-connect_and_wait a later others is_connected selected passes =
    let a' = act_all later (disconnect a) in
    rw (stop-act_all others a' (stop-act_all later (disconnect a) refl))
