-- ===== src/Adapter/Client/Resubscribes.antt =====
-- A subscription that is made on every connection.
use go_reverse_rpc.Base.{
  ℕ, zero, suc, ◌≡◌, refl, sym, subst, Bool, true, false, [], ◌∷◌, ◌++◌, Bytes, bytes_eq, arith,
  ℕ_eq, if◌then◌else◌,
}
use go_reverse_rpc.Base.Dict.{insert, lookup-insert}
use go_reverse_rpc.Adapter.Callbacks.{
  Callback, always, no_callbacks, on_connect_ask, on_connect_lost,
}
use go_reverse_rpc.Adapter.Callbacks.Repeats.{
  times, times-log, replicate, connects, connects-always, connects-empty,
}
use go_reverse_rpc.Adapter.Client.{Adapter, subscribed, subscribe}
use go_reverse_rpc.Adapter.Client.Laws.{remembers}

-- The callback that subscribes.
abbrev pub subscribing : Bytes → ℕ → Unit {0} → Adapter → Adapter
subscribing topic qos e a = subscribe topic qos a

times-subscribe :
    (topic : Bytes) (qos n : ℕ) (a : Adapter)
    → remembers topic (times (suc n) (subscribing topic qos tt) a) ≡ true
unfolding subscribe
times-subscribe topic qos zero a = ground (arith, lookup-insert topic topic true a.subscribe_map)
times-subscribe topic qos (suc n) a = times-subscribe topic qos n (subscribing topic qos tt a)

abbrev pub remembered : ℕ → Bool → Bool
remembered zero before = before
remembered (suc n) before = true

-- What an adapter has after some subscriptions.
abbrev pub Subscribed : Bytes → ℕ → ℕ → Adapter → Adapter → Type 0
Subscribed topic qos n a a' =
    (a'.requests ≡ replicate n (subscribed ((topic, qos) ∷ [])) ++ a.requests)
    × (remembers topic a' ≡ remembered n (remembers topic a))

Subscribed-times :
    (topic : Bytes) (qos n : ℕ) (a : Adapter)
    → Subscribed topic qos n a (times n (subscribing topic qos tt) a)
unfolding subscribe
Subscribed-times topic qos zero a = (refl, refl)
Subscribed-times topic qos (suc n) a = (
  times-log (λ (a : Adapter). a.requests) (subscribing topic qos tt)
      (subscribed ((topic, qos) ∷ [])) (λ a. refl) (suc n) a,
  times-subscribe topic qos n a,
)

pub Subscribed-connects :
    (topic : Bytes) (qos n count idx : ℕ) (a : Adapter)
    → Subscribed topic qos n a
        (connects n
          (record { count = count; callbacks = (idx, always (subscribing topic qos)) ∷ [] }, a)).1
Subscribed-connects topic qos n count idx a =
    subst (Subscribed topic qos n a) (sym (connects-always (subscribing topic qos) n count idx a))
      (Subscribed-times topic qos n a)

-- Runs of a callback: one if the client was connected when it was asked, and one for each of `n`
-- connections.
abbrev pub connections : Bool → ℕ → ℕ
connections connected n = if connected then suc n else n

-- A client whose one callback subscribes, and which connected `missed` times between the two parts
-- of `OnConnect`, and `n` times after them: it makes the subscription once if it was connected when
-- it was asked, once for every connection after the registration, and for none in between.
pub connects-subscribing :
    (connected : Bool) (topic : Bytes) (qos missed n : ℕ) (a : Adapter)
    → let closure : ℕ → Callback (Unit {0}) Adapter = λ idx. always (subscribing topic qos) in
      let (r, a') = connects missed (on_connect_ask connected tt closure (no_callbacks, a)) in
      Subscribed topic qos
        (connections connected n)
        a
        (connects n ((on_connect_lost closure r).1, a')).1
unfolding on_connect_ask on_connect_lost no_callbacks insert
connects-subscribing true topic qos missed n a =
    rw (connects-empty missed 0 (subscribing topic qos tt a)) (
      subst (Subscribed topic qos (suc n) a)
        (sym (connects-always (subscribing topic qos) n 1 0 (subscribing topic qos tt a)))
        (Subscribed-times topic qos (suc n) a))
connects-subscribing false topic qos missed n a =
    rw (connects-empty missed 0 a) (Subscribed-connects topic qos n 1 0 a)
