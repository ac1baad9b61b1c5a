-- ===== src/Adapter/Options.antt =====
-- mqttadapter/options.go, and `New` of mqttadapter/mqtt.go: the set-up of an adapter.
pub mod Status
use mathlib.Core.List.{foldl}
use go_reverse_rpc.Base.{
  ℕ, ℤ, pos, Bool, true, false, Option, none, some, List, [], ◌∷◌, ◌++◌, Bytes, bytes_eq, lit,
  format_uint, ◌==◌, if◌then◌else◌,
}
use go_reverse_rpc.Errors.{Error, Result, ok, err}
use go_reverse_rpc.Adapter.Callbacks.{Registry, always, no_callbacks, on_connect}
use go_reverse_rpc.Adapter.Client.{Adapter, publish_bytes}

-- A call of a setter of `mqtt.ClientOptions`, or a write to its field `WillQos`. Durations are in
-- nanoseconds. `S` and `T` stand for stores and TLS configurations.
pub data Setting (S T : Type 0) : Type 0 where
  broker client_id username password : Bytes → Setting S T
  keep_alive connect_retry_interval max_reconnect_interval : ℤ → Setting S T
  connect_retry auto_reconnect : Bool → Setting S T
  protocol_version : ℕ → Setting S T
  store : S → Setting S T
  file_store : Bytes → Setting S T
  tls_config : T → Setting S T
  will : Bytes → Bytes → ℕ → Bool → Setting S T
  binary_will : Bytes → Bytes → ℕ → Bool → Setting S T
  will_qos : ℕ → Setting S T
  default_publish_handler on_connect_handler connection_lost_handler : Setting S T

-- `settings` are in the order of the calls.
pub record ClientOptions (S T : Type 0) : Type 0 where
  pub settings : List (Setting S T)
  pub enable_status : Bool
  pub enable_debug : Bool
  pub online_topic : Bytes
  pub online_payload : Bytes

-- `Option`
abbrev pub ClientOption : Type 0 → Type 0 → Type 0
ClientOption S T = ClientOptions S T → ClientOptions S T

-- The callback of the online status.
abbrev pub publish_online : Bytes → Bytes → Unit {0} → Adapter → Adapter
publish_online topic payload e a = publish_bytes topic 1 true payload a

module _ {S T : Type 0} where
  unfoldable pub set : Setting S T → ClientOption S T
  set setting o = record o { settings = o.settings ++ setting ∷ [] }

  unfoldable pub with_debug : Bool → ClientOption S T
  with_debug debug o = record o { enable_debug = debug }

  unfoldable pub with_user_pass : Bytes → Bytes → ClientOption S T
  unfolding set
  with_user_pass user pass o = set (password pass) (set (username user) o)

  unfoldable pub with_client_id : Bytes → ClientOption S T
  unfolding set
  with_client_id id o = set (client_id id) o

  unfoldable pub with_keep_alive : ℤ → ClientOption S T
  unfolding set
  with_keep_alive keepalive o = set (keep_alive keepalive) o

  unfoldable pub with_connect_retry_interval : ℤ → ClientOption S T
  unfolding set
  with_connect_retry_interval duration o =
      set (connect_retry_interval duration) (set (connect_retry true) o)

  unfoldable pub with_protocol_version : ℕ → ClientOption S T
  unfolding set
  with_protocol_version pv o = set (protocol_version pv) o

  unfoldable pub with_store : S → ClientOption S T
  unfolding set
  with_store s o = set (store s) o

  unfoldable pub with_tls_config : T → ClientOption S T
  unfolding set
  with_tls_config cfg o = set (tls_config cfg) o

  unfoldable pub with_will : Bytes → Bytes → ℕ → Bool → ClientOption S T
  unfolding set
  with_will topic payload qos retained o = set (will topic payload qos retained) o

  unfoldable pub with_offline_will : Bytes → Bytes → ClientOption S T
  unfolding set
  with_offline_will topic payload o = set (will topic payload 1 true) o

  unfoldable pub with_online_status : Bytes → Bytes → ClientOption S T
  with_online_status topic payload o = record o { online_topic = topic; online_payload = payload }

  unfoldable pub with_status : Bytes → Bytes → Bytes → Bytes → ClientOption S T
  unfolding set
  with_status online_topic online_payload offline_topic offline_payload o =
      set (binary_will offline_topic offline_payload 1 true) (record o {
        enable_status = true;
        online_topic = online_topic;
        online_payload = online_payload;
      })

  -- `temp` is `os.TempDir()`, and `random` what `rand.Intn` gives.
  unfoldable pub with_file_store : Bytes → ℕ → Bytes → ClientOption S T
  unfolding set format_uint
  with_file_store temp random temp_dir o =
      let dir = if temp_dir == [] then format_uint random else temp_dir in
      set (file_store (temp ++ (lit "/" ++ dir))) o

  unfoldable pub with_qos : ℕ → ClientOption S T
  unfolding set
  with_qos qos o = set (will_qos qos) o

  unfoldable pub with_max_reconnect_interval : ℤ → ClientOption S T
  unfolding set
  with_max_reconnect_interval interval o = set (max_reconnect_interval interval) o

  -- The options that `New` starts from.
  unfoldable pub default_options : Bytes → Bytes → ClientOptions S T
  default_options uri id = record {
    settings =
        broker uri
        ∷ client_id id
        ∷ keep_alive (pos 60000000000)
        ∷ default_publish_handler
        ∷ auto_reconnect true
        ∷ on_connect_handler
        ∷ connection_lost_handler
        ∷ [];
    enable_status = false;
    enable_debug = false;
    online_topic = [];
    online_payload = [];
  }

  unfoldable pub apply_options : List (ClientOption S T) → ClientOption S T
  apply_options options o = foldl (λ acc option. option acc) o options

  -- The registration of the online status; `connected` is the new client's answer to `IsConnected`; no other
  -- goroutine has the adapter yet.
  unfoldable pub register_status :
      Bool
      → ClientOptions S T
      → Registry (Unit {0}) Adapter × Adapter
      → Registry (Unit {0}) Adapter × Adapter
  unfolding on_connect publish_bytes
  register_status connected o (r, a) =
      if o.enable_status
      then (let (idx, r', a') =
            on_connect connected tt (λ idx. always (publish_online o.online_topic o.online_payload))
              (λ s. s) (r, a) in
          (r', a'))
      else (r, a)

  -- `New`: the options for the client, the callbacks on connection, and the adapter. `parsed` is
  -- the error of `url.Parse`.
  unfoldable pub new :
      Option Error
      → Bool
      → Bytes
      → Bytes
      → List (ClientOption S T)
      → Result (ClientOptions S T × Registry (Unit {0}) Adapter × Adapter)
  unfolding default_options apply_options register_status no_callbacks
  new (some e) connected uri id options = err e
  new none connected uri id options =
      let o = apply_options options (default_options uri id) in
      let a : Adapter = record { subscribe_map = []; stop_retry_connect = false; requests = [] } in
      let (r, a') = register_status connected o (no_callbacks, a) in ok (o, r, a')
