-- ===== src/Adapter/Client/Laws.antt =====
-- The topics that the adapter remembers, against the history of its subscriptions.
use go_reverse_rpc.Base.{
  ℕ, ◌≡◌, refl, ap, ◌∙◌, Bool, true, false, Option, none, some, List, [], ◌∷◌, Bytes, bytes_eq,
  ◌==◌, if◌then◌else◌, arith,
}
use go_reverse_rpc.Base.Dict.{Dict, lookup, keys, lookup-insert, lookup-erase}
use go_reverse_rpc.Adapter.Client.{
  unsubscribed, Adapter, Selected, request, store, store_all, delete, delete_all, subscribe,
  subscribe_wait, subscribe_multiple, subscribe_multiple_wait, unsubscribe_all,
  unsubscribe_all_wait, unsubscribe, unsubscribe_wait,
}

-- A call of one of the methods that subscribe or unsubscribe, waiting or not.
pub data Op : Type 0 where
  subscribes : Bytes → ℕ → Op
  subscribes_wait : Selected → Bytes → ℕ → Op
  subscribes_multiple : Dict Bytes ℕ → Op
  subscribes_multiple_wait : Selected → Dict Bytes ℕ → Op
  unsubscribes_all : Op
  unsubscribes_all_wait : Selected → Op
  unsubscribes : Bytes → Op
  unsubscribes_wait : Selected → Bytes → Op

abbrev pub perform : Op → Adapter → Adapter
perform (subscribes topic qos) s = subscribe topic qos s
perform (subscribes_wait selected topic qos) s = (subscribe_wait selected topic qos s).1
perform (subscribes_multiple filters) s = subscribe_multiple filters s
perform (subscribes_multiple_wait selected filters) s =
    (subscribe_multiple_wait selected filters s).1
perform unsubscribes_all s = unsubscribe_all s
perform (unsubscribes_all_wait selected) s = (unsubscribe_all_wait selected s).1
perform (unsubscribes topic) s = unsubscribe topic s
perform (unsubscribes_wait selected topic) s = (unsubscribe_wait selected topic s).1

abbrev pub perform_all : List Op → Adapter → Adapter
perform_all [] s = s
perform_all (op ∷ ops) s = perform_all ops (perform op s)

-- The specification: whether a topic is subscribed after a call, by whether it was before.
abbrev pub member : Bytes → List Bytes → Bool
member topic [] = false
member topic (t ∷ ts) = if t == topic then true else member topic ts

abbrev pub follows : Bytes → Op → Bool → Bool
follows topic (subscribes t qos) before = if t == topic then true else before
follows topic (subscribes_wait selected t qos) before = if t == topic then true else before
follows topic (subscribes_multiple filters) before =
    if member topic (keys filters) then true else before
follows topic (subscribes_multiple_wait selected filters) before =
    if member topic (keys filters) then true else before
follows topic unsubscribes_all before = false
follows topic (unsubscribes_all_wait selected) before = false
follows topic (unsubscribes t) before = if t == topic then false else before
follows topic (unsubscribes_wait selected t) before = if t == topic then false else before

abbrev pub follows_all : Bytes → List Op → Bool → Bool
follows_all topic [] before = before
follows_all topic (op ∷ ops) before = follows_all topic ops (follows topic op before)

abbrev is_some : Option Bool → Bool
is_some none = false
is_some (some b) = true

-- Whether the adapter remembers a topic.
abbrev pub remembers : Bytes → Adapter → Bool
remembers topic s = is_some (lookup topic s.subscribe_map)

remembers-store_all :
    (topic : Bytes) (topics : List Bytes) (s : Adapter)
    → remembers topic (store_all topics s)
      ≡ (if member topic topics then true else remembers topic s)
unfolding store_all store
remembers-store_all topic [] s = refl
remembers-store_all topic (t ∷ ts) s =
    ground
      (arith, remembers-store_all topic ts (store t s), lookup-insert topic t true s.subscribe_map)

remembers-delete_all :
    (topic : Bytes) (topics : List Bytes) (s : Adapter)
    → remembers topic (delete_all topics s)
      ≡ (if member topic topics then false else remembers topic s)
unfolding delete_all delete
remembers-delete_all topic [] s = refl
remembers-delete_all topic (t ∷ ts) s =
    ground (arith, remembers-delete_all topic ts (delete t s), lookup-erase topic t s.subscribe_map)

member-keys :
    (topic : Bytes) (m : Dict Bytes Bool) → member topic (keys m) ≡ is_some (lookup topic m)
unfolding lookup keys
member-keys topic [] = refl
member-keys topic ((t, b) ∷ m) = ground (arith, member-keys topic m)

pub remembers-perform :
    (topic : Bytes) (op : Op) (s : Adapter)
    → remembers topic (perform op s) ≡ follows topic op (remembers topic s)
unfolding subscribe subscribe_wait subscribe_multiple subscribe_multiple_wait unsubscribe_all
    unsubscribe_all_wait unsubscribe unsubscribe_wait
remembers-perform topic (subscribes t qos) s =
    ground (arith, lookup-insert topic t true s.subscribe_map)
remembers-perform topic (subscribes_wait selected t qos) s =
    ground (arith, lookup-insert topic t true s.subscribe_map)
remembers-perform topic (subscribes_multiple filters) s = remembers-store_all topic (keys filters) _
remembers-perform topic (subscribes_multiple_wait selected filters) s =
    remembers-store_all topic (keys filters) _
remembers-perform topic unsubscribes_all s = ground (
  arith,
  remembers-delete_all topic (keys s.subscribe_map)
      (request (unsubscribed (keys s.subscribe_map)) s),
  member-keys topic s.subscribe_map,
)
remembers-perform topic (unsubscribes_all_wait selected) s = ground (
  arith,
  remembers-delete_all topic (keys s.subscribe_map)
      (request (unsubscribed (keys s.subscribe_map)) s),
  member-keys topic s.subscribe_map,
)
remembers-perform topic (unsubscribes t) s = ground (arith, lookup-erase topic t s.subscribe_map)
remembers-perform topic (unsubscribes_wait selected t) s =
    ground (arith, lookup-erase topic t s.subscribe_map)

-- After any calls of the eight methods that subscribe or unsubscribe, whatever errors the waiting
-- ones returned, the adapter remembers exactly the topics for which the last call that concerns
-- them was a subscription, and those it knew before that no call concerns.
pub remembers-perform_all :
    (topic : Bytes) (ops : List Op) (s : Adapter)
    → remembers topic (perform_all ops s) ≡ follows_all topic ops (remembers topic s)
remembers-perform_all topic [] s = refl
remembers-perform_all topic (op ∷ ops) s =
    remembers-perform_all topic ops (perform op s)
    ∙ ap (follows_all topic ops) (remembers-perform topic op s)

pub store_all-requests :
    (topics : List Bytes) (s : Adapter) → (store_all topics s).requests ≡ s.requests
unfolding store_all store
store_all-requests [] s = refl
store_all-requests (t ∷ ts) s = store_all-requests ts (store t s)

pub delete_all-requests :
    (topics : List Bytes) (s : Adapter) → (delete_all topics s).requests ≡ s.requests
unfolding delete_all delete
delete_all-requests [] s = refl
delete_all-requests (t ∷ ts) s = delete_all-requests ts (delete t s)

-- After any calls of the eight methods that subscribe or unsubscribe, `UnsubscribeAll` makes one
-- call of the client, for a list of topics that has exactly those for which the last call that
-- concerns them was a subscription, or that were known before and no call concerns; then the
-- adapter remembers no topic.
pub unsubscribe_all-perform_all :
    (topic : Bytes) (ops : List Op) (s : Adapter)
    → let s' = perform_all ops s in
      (topics : List Bytes) × ((unsubscribe_all s').requests ≡ unsubscribed topics ∷ s'.requests)
      × (member topic topics ≡ follows_all topic ops (remembers topic s))
      × (remembers topic (unsubscribe_all s') ≡ false)
unfolding unsubscribe_all request
unsubscribe_all-perform_all topic ops s =
    let s' = perform_all ops s in
    (
      keys s'.subscribe_map,
      delete_all-requests (keys s'.subscribe_map)
          (request (unsubscribed (keys s'.subscribe_map)) s'),
      member-keys topic s'.subscribe_map ∙ remembers-perform_all topic ops s,
      remembers-perform topic unsubscribes_all s',
    )
