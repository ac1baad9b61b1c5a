-- ===== src/Tests/Adapters.antt =====
-- The MQTT adapter's callbacks, subscriptions and connection loop.
use go_reverse_rpc.Base.{
  ℕ, ◌+◌, ◌≡◌, refl, true, false, none, some, List, [], ◌∷◌, ◌++◌, Bytes, bytes_eq, ℕ_eq, lit,
  length, arith,
}
use go_reverse_rpc.Base.Dict.{lookup}
use go_reverse_rpc.Errors.{other}
use go_reverse_rpc.Adapter.Callbacks.{always, once, Registry, on_connect_once}
use go_reverse_rpc.Adapter.Callbacks.Laws.{on_connect_once_race}
use go_reverse_rpc.Adapter.Connecting.{
  Round, connects, connect_and_wait_for_success, connect_and_wait_ends,
}
use go_reverse_rpc.Adapter.Callbacks.Lifetime.{
  asks, runs, Change, registers, registers_once, happens, takes_out,
}
use go_reverse_rpc.Adapter.Client.{Adapter, unsubscribed, token_done, unsubscribe_all}
use go_reverse_rpc.Adapter.Client.Laws.{
  Op, subscribes, subscribes_wait, subscribes_multiple, unsubscribes, perform_all, follows_all,
  member, unsubscribe_all-perform_all, remembers, remembers-perform_all,
}

-- The world counts the calls of callbacks.
abbrev counts : ℕ → ℕ → ℕ
counts e w = w + 1

abbrev registry : Registry ℕ ℕ
registry = record { count = 2; callbacks = (0, always counts) ∷ (1, once 1 counts) ∷ [] }

on_connect_once_race_example :
    let (r', w') = on_connect_once false true 5 counts (registry, 0) in
    (w' ≡ counts 5 0)
    × (lookup 2 r'.callbacks ≡ some (once 2 counts))
    × (lookup 0 r'.callbacks ≡ none)
on_connect_once_race_example = on_connect_once_race 5 counts registry 0 (omega arith)

abbrev refused : Round
refused = record {
  stop_retry_connect = false;
  is_connected = false;
  connect = some (other (lit "refused"));
}

abbrev accepted : Round
accepted = record { stop_retry_connect = false; is_connected = false; connect = none }

connect_and_wait_ends_example :
    connect_and_wait_for_success false ((refused ∷ refused ∷ []) ++ accepted ∷ refused ∷ [])
    ≡ (connects, length (refused ∷ refused ∷ []) + 1)
connect_and_wait_ends_example =
    connect_and_wait_ends (refused ∷ refused ∷ []) accepted (refused ∷ []) connects 1
      ((refl, refl, other (lit "refused"), refl), ((refl, refl, other (lit "refused"), refl), tt))
      refl

abbrev adapter : Adapter
adapter = record { subscribe_map = []; stop_retry_connect = false; requests = [] }

abbrev history : List Op
history =
    subscribes (lit "a") 1
    ∷ subscribes_wait (token_done (some (other (lit "refused")))) (lit "b") 0
    ∷ unsubscribes (lit "a")
    ∷ subscribes_multiple ((lit "c", 0) ∷ (lit "d", 2) ∷ [])
    ∷ []

remembers-perform_all_example :
    remembers (lit "b") (perform_all history adapter)
    ≡ follows_all (lit "b") history (remembers (lit "b") adapter)
remembers-perform_all_example = remembers-perform_all (lit "b") history adapter

unsubscribe_all-perform_all_example :
    let s' = perform_all history adapter in
    (topics : List Bytes) × ((unsubscribe_all s').requests ≡ unsubscribed topics ∷ s'.requests)
    × (member (lit "a") topics ≡ follows_all (lit "a") history (remembers (lit "a") adapter))
    × (remembers (lit "a") (unsubscribe_all s') ≡ false)
unsubscribe_all-perform_all_example = unsubscribe_all-perform_all (lit "a") history adapter

-- A callback for good, one that runs once, and one whose registration meets a connection.
abbrev changes : List (Change ℕ ℕ)
changes =
    registers false 5 counts
    ∷ registers_once false false 5 counts
    ∷ registers_once false true 5 counts
    ∷ happens 5
    ∷ takes_out 1
    ∷ runs 5 (once 1 counts)
    ∷ asks true 5 counts
    ∷ registers false 5 counts
    ∷ []
