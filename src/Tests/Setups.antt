-- ===== src/Tests/Setups.antt =====
-- Adapters and servers that are set up, and Prometheus metrics.
use go_reverse_rpc.Base.{ℕ, pos, ◌≡◌, true, false, none, some, List, [], ◌∷◌, lit, ℕ_eq}
use go_reverse_rpc.Base.Dict.{insert}
use go_reverse_rpc.Errors.{ok}
use go_reverse_rpc.Server.{returns, replies, Server, new_server, register}
use go_reverse_rpc.Server.Metrics.{Metrics, silent}
use go_reverse_rpc.Adapter.Callbacks.{Registry, no_callbacks}
use go_reverse_rpc.Adapter.Callbacks.Repeats.{connects}
use go_reverse_rpc.Adapter.Client.{Adapter}
use go_reverse_rpc.Adapter.Client.Resubscribes.{Subscribed}
use go_reverse_rpc.Adapter.Options.{
  ClientOption, with_debug, with_status, default_options, apply_options, new,
}
use go_reverse_rpc.Adapter.Options.Status.{announcements, connects-new}
use go_reverse_rpc.Adapter.Client.Laws.{remembers}
use go_reverse_rpc.Mqttpb.Conn.{Conn, new_conn, receive, close}
use go_reverse_rpc.Mqttpb.Conn.Registered.{open_conn, close_conn, close_conn-Subscribed}
use go_reverse_rpc.Mqttpb.Service.{subscribe_topic}
use go_reverse_rpc.Mqttpb.Service.Setup
use go_reverse_rpc.Mqttpb.Service.Setup.{new_server-Subscribed}
use go_reverse_rpc.Tests.Calls.{child, seven}

-- Stores and TLS configurations are numbers.
abbrev with_all : List (ClientOption ℕ ℕ)
unfolding with_debug with_status
with_all = with_debug true ∷ with_status (lit "s") (lit "on") (lit "s") (lit "off") ∷ []

connects-new_example :
    let o = apply_options with_all (default_options (lit "tcp://b") (lit "id")) in
    (r : Registry (Unit {0}) Adapter) × (a : Adapter) × (new none false
        (lit "tcp://b")
        (lit "id")
        with_all
      ≡ ok (o, r, a))
    × ((connects 2 (r, a)).1.requests ≡ announcements 2 o)
connects-new_example = connects-new (lit "tcp://b") (lit "id") with_all 2

abbrev adapter : Adapter
adapter = record { subscribe_map = []; stop_retry_connect = false; requests = [] }

new_server-Subscribed_example :
    Subscribed
      (subscribe_topic (lit "p") (lit "dev"))
      0
      3
      adapter
      (connects 2
        (Setup.new_server true (connects 1) (lit "p") (lit "dev") (no_callbacks, adapter))).1
new_server-Subscribed_example = new_server-Subscribed true (lit "p") (lit "dev") 1 2 adapter

server : Server ℕ Metrics
unfolding new_server register insert
server =
    register (lit "add")
      (record { method = λ child. replies (some seven) (λ sent. returns); timeout = pos 0 })
      (new_server (lit "id") (pos 4) silent [])

abbrev unmeasured : Metrics
unmeasured = record { response_time = []; error_count = [] }

conn : Conn
unfolding new_conn
conn = new_conn (lit "dev/request/7") (lit "dev/response/7") 0

close_conn-Subscribed_example :
    let (r, a₁) = open_conn true (λ s. s) conn.response_topic conn.qos (no_callbacks, adapter) in
    let a₂ = close_conn conn.response_topic a₁ in
    (remembers conn.response_topic a₂ ≡ false)
    × Subscribed conn.response_topic conn.qos 2 a₂ (connects 2 (r, a₂)).1
    × ((receive (lit "late") (close conn)).panicked ≡ true)
close_conn-Subscribed_example = close_conn-Subscribed conn 2 adapter (lit "late")
