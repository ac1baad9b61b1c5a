-- ===== src/Adapter/Client.antt =====
-- mqttadapter/mqtt.go: subscriptions, publications and the end of the connection, as calls of the
-- MQTT client.
pub mod Laws
pub mod Resubscribes
use go_reverse_rpc.Base.{ℕ, Bool, true, false, Option, none, some, List, [], ◌∷◌, Bytes, bytes_eq}
use go_reverse_rpc.Base.Dict.{Dict, insert, erase, keys}
use go_reverse_rpc.Errors.{Error, Result, ok, err}

-- A call of `mqtt.Client`.
pub data Request : Type 0 where
  subscribed : Dict Bytes ℕ → Request
  unsubscribed : List Bytes → Request
  published : Bytes → ℕ → Bool → Bytes → Request
  disconnected : ℕ → Request
  connecting : Request

-- `requests` are the calls of the client, the latest first.
pub record Adapter : Type 0 where
  pub subscribe_map : Dict Bytes Bool
  pub stop_retry_connect : Bool
  pub requests : List Request

-- How the `select` of a method that waits ends: with the context's error, or with the token's,
-- which may be nil.
pub data Selected : Type 0 where
  context_done : Error → Selected
  token_done : Option Error → Selected

unfoldable pub selected_error : Selected → Option Error
selected_error (context_done e) = some e
selected_error (token_done e) = e

unfoldable pub request : Request → Adapter → Adapter
request r s = record s { requests = r ∷ s.requests }

unfoldable pub store : Bytes → Adapter → Adapter
store topic s = record s { subscribe_map = insert topic true s.subscribe_map }

unfoldable pub store_all : List Bytes → Adapter → Adapter
unfolding store
store_all [] s = s
store_all (topic ∷ topics) s = store_all topics (store topic s)

unfoldable pub delete : Bytes → Adapter → Adapter
delete topic s = record s { subscribe_map = erase topic s.subscribe_map }

unfoldable pub delete_all : List Bytes → Adapter → Adapter
unfolding delete
delete_all [] s = s
delete_all (topic ∷ topics) s = delete_all topics (delete topic s)

unfoldable pub subscribe : Bytes → ℕ → Adapter → Adapter
unfolding request store
subscribe topic qos s = store topic (request (subscribed ((topic, qos) ∷ [])) s)

unfoldable pub subscribe_wait : Selected → Bytes → ℕ → Adapter → Option Error × Adapter
unfolding request store selected_error
subscribe_wait selected topic qos s =
    (selected_error selected, store topic (request (subscribed ((topic, qos) ∷ [])) s))

unfoldable pub subscribe_multiple : Dict Bytes ℕ → Adapter → Adapter
unfolding request store_all
subscribe_multiple filters s = store_all (keys filters) (request (subscribed filters) s)

unfoldable pub subscribe_multiple_wait : Selected → Dict Bytes ℕ → Adapter → Option Error × Adapter
unfolding request store_all selected_error
subscribe_multiple_wait selected filters s =
    (selected_error selected, store_all (keys filters) (request (subscribed filters) s))

unfoldable pub unsubscribe_all : Adapter → Adapter
unfolding request delete_all
unsubscribe_all s =
    let topics = keys s.subscribe_map in delete_all topics (request (unsubscribed topics) s)

unfoldable pub unsubscribe_all_wait : Selected → Adapter → Option Error × Adapter
unfolding request delete_all selected_error
unsubscribe_all_wait selected s =
    let topics = keys s.subscribe_map in
    (selected_error selected, delete_all topics (request (unsubscribed topics) s))

unfoldable pub unsubscribe : Bytes → Adapter → Adapter
unfolding request delete
unsubscribe topic s = delete topic (request (unsubscribed (topic ∷ [])) s)

unfoldable pub unsubscribe_wait : Selected → Bytes → Adapter → Option Error × Adapter
unfolding request delete selected_error
unsubscribe_wait selected topic s =
    (selected_error selected, delete topic (request (unsubscribed (topic ∷ [])) s))

unfoldable pub publish_bytes : Bytes → ℕ → Bool → Bytes → Adapter → Adapter
unfolding request
publish_bytes topic qos retained content s = request (published topic qos retained content) s

unfoldable pub publish_bytes_wait :
    Selected → Bytes → ℕ → Bool → Bytes → Adapter → Option Error × Adapter
unfolding request selected_error
publish_bytes_wait selected topic qos retained content s =
    (selected_error selected, request (published topic qos retained content) s)

-- `publishObject`; `payload` is what `json.Marshal` gives.
unfoldable pub publish_json : Bytes → ℕ → Result Bytes → Adapter → Option Error × Adapter
unfolding request
publish_json topic qos (err e) s = (some e, s)
publish_json topic qos (ok content) s = (none, request (published topic qos false content) s)

unfoldable pub publish_object : Bytes → ℕ → Bool → Result Bytes → Adapter → Option Error × Adapter
unfolding publish_json
publish_object topic qos retained payload s = publish_json topic qos payload s

unfoldable pub publish_object_wait :
    Selected → Bytes → ℕ → Bool → Result Bytes → Adapter → Option Error × Adapter
unfolding publish_json selected_error
publish_object_wait selected topic qos retained payload s =
    let (failure, s') = publish_json topic qos payload s in
    elim failure [ some e ↦ (some e, s') | none ↦ (selected_error selected, s') ]

-- `Disconnect`
unfoldable pub disconnect : Adapter → Adapter
unfolding request
disconnect s = request (disconnected 1000) (record s { stop_retry_connect = true })

-- `Connect`
unfoldable pub connect : Selected → Adapter → Option Error × Adapter
unfolding request selected_error
connect selected s = (selected_error selected, request connecting s)
