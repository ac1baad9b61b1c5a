-- ===== src/Adapter/Options/Status.antt =====
-- The online status that an adapter publishes when it connects.
use mathlib.Core.List.{append-nil}
use go_reverse_rpc.Base.Dict.{insert}
use go_reverse_rpc.Base.{
  ℕ, ◌≡◌, refl, ap, ◌∙◌, true, false, none, List, [], ◌∷◌, ◌++◌, Bytes, arith, All, if◌then◌else◌,
  inl, inr, Bool-cases,
}
use go_reverse_rpc.Errors.{ok}
use go_reverse_rpc.Adapter.Callbacks.{Registry, always, no_callbacks, on_connect}
use go_reverse_rpc.Adapter.Callbacks.Repeats.{
  times-log, replicate, connects, connects-always, connects-nothing,
}
use go_reverse_rpc.Adapter.Client.{Adapter, Request, published, publish_bytes}
use go_reverse_rpc.Adapter.Options.{
  ClientOptions, ClientOption, default_options, publish_online, apply_options, register_status, new,
  with_online_status,
}

-- The publications of a registry with the one callback of the online status.
connects-publish :
    (topic payload : Bytes) (n count idx : ℕ) (a : Adapter)
    → (connects n (
      record { count = count; callbacks = (idx, always (publish_online topic payload)) ∷ [] },
      a,
    )).1.requests
      ≡ replicate n (published topic 1 true payload) ++ a.requests
unfolding publish_bytes
connects-publish topic payload n count idx a =
    ap (λ (a : Adapter). a.requests) (connects-always (publish_online topic payload) n count idx a)
    ∙ times-log (λ (a : Adapter). a.requests) (publish_online topic payload tt)
        (published topic 1 true payload) (λ a. refl) n a

module _ {S T : Type 0} where
  -- The publications of a row of connections.
  abbrev pub announcements : ℕ → ClientOptions S T → List Request
  announcements n o =
      if o.enable_status then replicate n (published o.online_topic 1 true o.online_payload) else []

  connects-register_status :
      (o : ClientOptions S T) (n : ℕ) (a : Adapter)
      → a.requests ≡ []
      → (connects n (register_status false o (no_callbacks, a))).1.requests ≡ announcements n o
  unfolding register_status no_callbacks on_connect insert
  connects-register_status o n a fresh =
      let one = published o.online_topic 1 true o.online_payload in
      elim (Bool-cases o.enable_status) [
        | inl on ↦ rw on (
            connects-publish o.online_topic o.online_payload n 1 0 a
            ∙ ap (λ rs. replicate n one ++ rs) fresh
            ∙ append-nil (replicate n one))
        | inr off ↦ rw off (ap (λ (a : Adapter). a.requests) (connects-nothing n 0 a) ∙ fresh)
      ]

  -- Let a new adapter be made with any options, on a client that is not connected. Each of `n`
  -- connections publishes its online payload, retained and with QoS 1, if the options enable the
  -- status, and nothing otherwise.
  pub connects-new :
      (uri id : Bytes) (options : List (ClientOption S T)) (n : ℕ)
      → let o = apply_options options (default_options uri id) in
        (r : Registry (Unit {0}) Adapter) × (a : Adapter) × (new none false uri id options
          ≡ ok (o, r, a))
        × ((connects n (r, a)).1.requests ≡ announcements n o)
  unfolding new
  connects-new uri id options n =
      let o = apply_options options (default_options uri id) in
      let a : Adapter = record { subscribe_map = []; stop_retry_connect = false; requests = [] } in
      let s = register_status false o (no_callbacks, a) in
      (s.0, s.1, refl, connects-register_status o n a refl)

  -- An option that leaves the status as it is.
  abbrev pub KeepsStatus : ClientOption S T → Type 0
  KeepsStatus option = (o : ClientOptions S T) → (option o).enable_status ≡ o.enable_status

  keeps-apply_options :
      (options : List (ClientOption S T)) (o : ClientOptions S T)
      → All KeepsStatus options
      → (apply_options options o).enable_status ≡ o.enable_status
  unfolding apply_options
  keeps-apply_options [] o k = refl
  keeps-apply_options (option ∷ options) o k = keeps-apply_options options (option o) k.1 ∙ k.0 o

  pub with_online_status-KeepsStatus :
      (topic payload : Bytes) → KeepsStatus (with_online_status topic payload)
  unfolding with_online_status
  with_online_status-KeepsStatus topic payload o = refl

  -- Let none of the options enable the status; `WithOnlineStatus` does not. Then a new adapter, on
  -- a client that is not connected, publishes nothing however often it connects.
  pub connects-silent :
      (uri id : Bytes) (options : List (ClientOption S T)) (n : ℕ)
      → All KeepsStatus options
      → (o : ClientOptions S T) × (r : Registry (Unit {0}) Adapter) × (a : Adapter) × (new none
            false uri id options
          ≡ ok (o, r, a))
        × ((connects n (r, a)).1.requests ≡ [])
  unfolding default_options
  connects-silent uri id options n keep =
      let o = apply_options options (default_options uri id) in
      let (r, a, made, sent) = connects-new uri id options n in
      let off = keeps-apply_options options (default_options uri id) keep in
      (o, r, a, made, sent ∙ ground (arith, off))
