-- ===== src/Mqttpb/Conn.antt =====
-- mqttpb/conn.go (and mqttjson/conn.go, which does the same): a connection that carries one call.
-- Its two sides meet in an unbuffered channel: the callback of the subscription sends, `Read`
-- receives.
pub mod Laws
pub mod Registered
pub mod Whole
use go_reverse_rpc.Base.{
  ℕ, zero, suc, Bool, true, false, Option, none, some, List, [], ◌∷◌, ◌++◌, Bytes, take, drop,
  if◌then◌else◌,
}
use go_reverse_rpc.Mqttpb.Server.{Published}

-- What a `Read` gives: bytes, `io.EOF`, or nothing yet.
pub data Given : Type 0 where
  bytes_read : Bytes → Given
  at_end blocked : Given

-- `bytes_reader` is what is left to read of the last message. `senders` counts the callbacks that
-- stand at `readyChan <- struct{}{}`, and `receiver` is the buffer size of a `Read` that stands at
-- `<-c.readyChan`. `panicked` says that a send has met the closed channel, which ends the program.
pub record Conn : Type 0 where
  pub request_topic : Bytes
  pub response_topic : Bytes
  pub qos : ℕ
  pub ready : Bool
  pub bytes_reader : Bytes
  pub senders : ℕ
  pub receiver : Option ℕ
  pub closed : Bool
  pub panicked : Bool

-- `NewConn`
unfoldable pub new_conn : Bytes → Bytes → ℕ → Conn
new_conn request_topic response_topic qos = record {
  request_topic = request_topic;
  response_topic = response_topic;
  qos = qos;
  ready = false;
  bytes_reader = [];
  senders = 0;
  receiver = none;
  closed = false;
  panicked = false;
}

-- `bytesReader.Read`, into a buffer of `n` bytes.
unfoldable pub read_bytes : ℕ → Conn → Given × Conn
read_bytes n c = elim c.bytes_reader [
  | [] ↦ (at_end, c)
  | b ∷ bs ↦ (bytes_read (take n (b ∷ bs)), record c { bytes_reader = drop n (b ∷ bs) })
]

-- The callback of the subscription, up to its send.
unfoldable pub receive : Bytes → Conn → Conn
receive payload c =
    let c' = record c { bytes_reader = payload; ready = true } in
    if c.closed then record c' { panicked = true } else record c' { senders = suc c.senders }

-- `Read`, up to its receive.
unfoldable pub read : ℕ → Conn → Given × Conn
unfolding read_bytes
read n c =
    if c.ready
    then read_bytes n c
    else if c.closed
    then (at_end, c)
    else (blocked, record c { receiver = some n })

-- A send and a receive that meet: the callback returns, and `Read` goes on.
unfoldable pub meet : Conn → Given × Conn
unfolding read_bytes
meet c = elim c.senders [
  | zero ↦ (blocked, c)
  | suc n ↦ elim c.receiver [
    | none ↦ (blocked, c)
    | some size ↦ read_bytes size (record c { senders = n; receiver = none })
  ]
]

-- `Write`
unfoldable pub write : Bytes → Conn → Published
write content c = record {
  topic = c.request_topic;
  qos = c.qos;
  retained = false;
  payload = content;
}

-- `Close`: a waiting `Read` ends, and a waiting send panics.
unfoldable pub close : Conn → Conn
close c =
    let c' = record c { closed = true; receiver = none; senders = 0 } in
    elim c.senders [ zero ↦ c' | suc n ↦ record c' { panicked = true } ]

-- `io.ReadAll`, with buffers of the given sizes. `none` is a read that blocks, or
-- sizes that run out.
unfoldable pub read_all : List ℕ → Conn → Option Bytes × Conn
unfolding read
read_all [] c = (none, c)
read_all (n ∷ sizes) c =
    let (given, c₁) = read n c in
    let (rest, c₂) = read_all sizes c₁ in
    elim given [
      | blocked ↦ (none, c₁)
      | at_end ↦ (some [], c₁)
      | bytes_read bs ↦ elim rest [ none ↦ (none, c₂) | some more ↦ (some (bs ++ more), c₂) ]
    ]
