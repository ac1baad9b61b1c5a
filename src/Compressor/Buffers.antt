-- ===== src/Compressor/Buffers.antt =====
-- The buffers of the manager's `bufferPool`: `bytes.Buffer` over arrays in a heap, so that slices
-- which share an array are seen to share it.
use go_reverse_rpc.Base.{
  ℕ, suc, ◌+◌, List, [], ◌∷◌, ◌++◌, Bytes, leb, ◌==◌, ℕ_eq, if◌then◌else◌, take, drop, length,
  replicate,
}

-- The unread part of a buffer is `len` bytes from the start of its array.
pub record Buffer : Type 0 where
  pub array : ℕ
  pub len : ℕ

-- A slice `array[0:len]`.
pub record Slice : Type 0 where
  pub array : ℕ
  pub len : ℕ

-- Arrays by their address, those from `next` on not yet allocated; and the buffers in the pool.
pub record Manager : Type 0 where
  pub arrays : ℕ → Bytes
  pub next : ℕ
  pub buffer_pool : List Buffer

-- `NewCompressorManager`
unfoldable pub new_compressor_manager : Manager
new_compressor_manager = record { arrays = λ a. []; next = 0; buffer_pool = [] }

unfoldable pub update : (ℕ → Bytes) → ℕ → Bytes → ℕ → Bytes
update arrays a content b = if a == b then content else arrays b

unfoldable pub read_slice : Slice → Manager → Bytes
read_slice slice st = take slice.len (st.arrays slice.array)

-- `new(bytes.Buffer)`, over an array with no room.
unfoldable pub new_buffer : Manager → Buffer × Manager
unfolding update
new_buffer st = (
  record { array = st.next; len = 0 },
  record st { arrays = update st.arrays st.next []; next = suc st.next },
)

unfoldable pub take_buffer : List Buffer → Manager → Buffer × Manager
unfolding new_buffer
take_buffer [] st = new_buffer st
take_buffer (buf ∷ pool) st = (buf, record st { buffer_pool = pool })

-- `bufferPool.Get()`
unfoldable pub get_buffer : Manager → Buffer × Manager
unfolding take_buffer
get_buffer st = take_buffer st.buffer_pool st

-- `bufferPool.Put(buf)`
unfoldable pub put_buffer : Buffer → Manager → Manager
put_buffer buf st = record st { buffer_pool = buf ∷ st.buffer_pool }

-- `buf.Reset()` keeps the array for later writes.
unfoldable pub reset : Buffer → Buffer
reset buf = record buf { len = 0 }

-- The array with `chunk` at offset `n`.
abbrev pub overwrite : ℕ → Bytes → Bytes → Bytes
overwrite n chunk old = take n old ++ (chunk ++ drop (n + length chunk) old)

-- A write into the room that the array has.
unfoldable pub write_in_place : Bytes → Buffer → Manager → Buffer × Manager
unfolding update
write_in_place chunk buf st = (
  record buf { len = buf.len + length chunk },
  record st { arrays = update st.arrays buf.array (overwrite buf.len chunk (st.arrays buf.array)) },
)

-- A write for which the content moves to a new array, with `spare` bytes to grow.
unfoldable pub write_moved : ℕ → Bytes → Buffer → Manager → Buffer × Manager
unfolding update
write_moved spare chunk buf st = (
  record { array = st.next; len = buf.len + length chunk },
  record st {
    arrays =
        update st.arrays st.next
          (take buf.len (st.arrays buf.array) ++ (chunk ++ replicate spare 0));
    next = suc st.next;
  },
)

-- `buf.Write(chunk)`
unfoldable pub write : ℕ → Bytes → Buffer → Manager → Buffer × Manager
write spare chunk buf st =
    if leb (buf.len + length chunk) (length (st.arrays buf.array))
    then write_in_place chunk buf st
    else write_moved spare chunk buf st

unfoldable pub write_all : ℕ → List Bytes → Buffer → Manager → Buffer × Manager
write_all spare [] buf st = (buf, st)
write_all spare (chunk ∷ chunks) buf st =
    let (buf', st') = write spare chunk buf st in write_all spare chunks buf' st'

-- `buf.Bytes()`
unfoldable pub bytes : Buffer → Slice
bytes buf = record { array = buf.array; len = buf.len }
