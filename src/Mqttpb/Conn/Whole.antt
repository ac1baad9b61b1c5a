-- ===== src/Mqttpb/Conn/Whole.antt =====
-- mqttpb/conn.go, mqttjson/conn.go: reading a whole message.
use go_reverse_rpc.Base.{
  ℕ, zero, suc, ◌<◌, ◌≡◌, refl, ap, some, List, [], ◌∷◌, ◌++◌, Bytes, bytes_eq, arith, All, take,
  drop, length,
}
use go_reverse_rpc.Mqttpb.Conn
use go_reverse_rpc.Mqttpb.Conn.{bytes_read, blocked, new_conn, read, meet, write, read_all}
use go_reverse_rpc.Mqttpb.Conn.Laws.{read_all-meet, take-drop}

-- The sizes of some buffers, from one on.
abbrev pub buffers_from : ℕ → ℕ → (ℕ → ℕ) → List ℕ
buffers_from i zero size = []
buffers_from i (suc n) size = size i ∷ buffers_from (suc i) n size

buffers_from-All :
    (i n : ℕ) (size : ℕ → ℕ)
    → ((j : ℕ) → 0 < size j)
    → All (λ k. 0 < k) (buffers_from i n size) × (length (buffers_from i n size) ≡ n)
buffers_from-All i zero size h = (tt, refl)
buffers_from-All i (suc n) size h =
    let (holds, counted) = buffers_from-All (suc i) n size h in ((h i, holds), ap suc counted)

-- What `io.ReadAll` gives on a new connection to which a message comes while its first `Read`
-- waits.
abbrev pub ReadsWhole : Conn.Conn → (ℕ → ℕ) → Bytes → Type 0
ReadsWhole conn size payload =
    let (given, waits) = read (size 0) conn in
    let (given', received) = meet (Conn.receive payload waits) in
    (given ≡ blocked)
    × (first : Bytes) × (rest : Bytes) × (given' ≡ bytes_read first)
    × ((read_all (buffers_from 1 (length payload) size) received).0 ≡ some rest)
    × (first ++ rest ≡ payload)

pub new_conn-ReadsWhole :
    (request_topic response_topic : Bytes) (qos : ℕ) (size : ℕ → ℕ) (b : ℕ) (bs : Bytes)
    → ((j : ℕ) → 0 < size j)
    → ReadsWhole (new_conn request_topic response_topic qos) size (b ∷ bs)
new_conn-ReadsWhole request_topic response_topic qos size b bs h =
    let (holds, counted) = buffers_from-All 1 (suc (length bs)) size h in
    let (blocks, first, rest, senders, closes) =
      read_all-meet request_topic response_topic qos (size 0)
        (buffers_from 1 (suc (length bs)) size) b bs (h 0) holds (omega (arith, counted)) in
    (
      blocks,
      take (size 0) (b ∷ bs),
      drop (size 0) (b ∷ bs),
      first,
      rest,
      take-drop (size 0) (b ∷ bs),
    )
