-- ===== src/Compressor/Lifetime.antt =====
-- A manager from `NewCompressorManager` on, through calls that may fail.
use go_reverse_rpc.Base.{suc, ◌≡◌, Option, none, some, List, [], ◌∷◌, Bytes, bytes_eq, arith}
use go_reverse_rpc.Base.Int.{ℤ_eq}
use go_reverse_rpc.Errors.{Error, ok, err}
use go_reverse_rpc.Compressor.Buffers.{
  Slice, Manager, update, new_compressor_manager, get_buffer, put_buffer, bytes, reset, write_all,
  read_slice,
}
use go_reverse_rpc.Compressor.Writes.{IsValid, Written-append, write_all-Written, joined}
use go_reverse_rpc.Compressor.RoundTrip.{
  AllLossless, IsKnown, Apart, pool_mono, get_buffer-Ready, decompress-compress,
}
use go_reverse_rpc.Compressor.{
  Compressed, ContentEncoding, Input, input_of, Algorithm, Algorithms, compress_with, gzip_compress,
  zlib_compress, brotli_compress, compress, decompress,
}

finished-IsValid :
    (failed closed : Option Error) (made : Option Slice) (st₂ st₃ : Manager)
    → IsValid st₂
    → IsValid st₃
    → let out : Compressed × Manager = elim failed [
      | some e ↦ (err e, st₂)
      | none ↦ elim closed [ some e ↦ (err e, st₃) | none ↦ (ok made, st₃) ]
    ] in
      IsValid out.1
finished-IsValid (some e) closed made st₂ st₃ v₂ v₃ = v₂
finished-IsValid none (some e) made st₂ st₃ v₂ v₃ = v₃
finished-IsValid none none made st₂ st₃ v₂ v₃ = v₃

-- The pool stays valid, whether the writer fails or not.
compress_with-IsValid :
    (a : Algorithm) (c : Input) (st : Manager) → IsValid st → IsValid (compress_with a c st).1
unfolding compress_with put_buffer
compress_with-IsValid a c st v =
    let (buf₁, st₁) = get_buffer st in
    let ready = get_buffer-Ready st v in
    let (buf₂, st₂) = write_all a.spare (a.write_chunks c) (reset buf₁) st₁ in
    let (buf₃, st₃) = write_all a.spare (a.close_chunks c) buf₂ st₂ in
    let first = write_all-Written a.spare (a.write_chunks c) (reset buf₁) st₁ ready.in_use in
    let second = write_all-Written a.spare (a.close_chunks c) buf₂ st₂ first.in_use in
    let both =
      Written-append (reset buf₁) buf₂ buf₃ st₁ st₂ st₃ (joined (a.write_chunks c))
        (joined (a.close_chunks c)) first second in
    let pool₂ : IsValid st₂ =
      rw first.same_pool (pool_mono st₁.next st₂.next st₁.buffer_pool first.grows ready.valid) in
    let pool₃ : IsValid st₃ =
      rw both.same_pool (pool_mono st₁.next st₃.next st₁.buffer_pool both.grows ready.valid) in
    finished-IsValid (a.write_error c) (a.close_error c) (some (bytes buf₃)) (put_buffer buf₂ st₂)
      (put_buffer buf₃ st₃) (first.in_use.allocated, pool₂) (both.in_use.allocated, pool₃)

compress-IsValid :
    (algorithms : Algorithms) (tp : ContentEncoding) (content : Option Slice) (st : Manager)
    → IsValid st
    → IsValid (compress algorithms tp content st).1
unfolding compress gzip_compress zlib_compress brotli_compress
compress-IsValid algorithms tp none st v = v
compress-IsValid algorithms tp (some slice) st v =
    let c = input_of slice st in
    ground (
      arith,
      compress_with-IsValid algorithms.gzip c st v,
      compress_with-IsValid algorithms.zlib c st v,
      compress_with-IsValid algorithms.brotli c st v,
    )

-- What happens to a manager's heap: its user makes a slice, or calls `Compress`, at any slice and
-- with packages that may behave differently each time.
pub data Used : Type 0 where
  allocates : Bytes → Used
  compresses : Algorithms → ContentEncoding → Option Slice → Used

abbrev pub use_once : Used → Manager → Manager
use_once (allocates content) st = record st {
  arrays = update st.arrays st.next content;
  next = suc st.next;
}
use_once (compresses algorithms tp content) st = (compress algorithms tp content st).1

abbrev pub use_all : List Used → Manager → Manager
use_all [] st = st
use_all (used ∷ history) st = use_all history (use_once used st)

use_all-IsValid : (history : List Used) (st : Manager) → IsValid st → IsValid (use_all history st)
use_all-IsValid [] st v = v
use_all-IsValid (allocates content ∷ history) st v =
    use_all-IsValid history (use_once (allocates content) st)
      (pool_mono st.next (suc st.next) st.buffer_pool (omega arith) v)
use_all-IsValid (compresses algorithms tp content ∷ history) st v =
    use_all-IsValid history (use_once (compresses algorithms tp content) st)
      (compress-IsValid algorithms tp content st v)

-- After `NewCompressorManager` and any history of slices that its users make and calls of
-- `Compress`, which may have failed in any way, every buffer of the pool has an allocated array. So
-- with one of the four encodings and packages that keep their contract from then on, at a slice of
-- an allocated array that no buffer of the pool lies in, `Compress` succeeds, and its slice
-- decompresses at once to the content that it was given.
pub decompress-use_all :
    (history : List Used) (algorithms : Algorithms) (tp : ContentEncoding) (slice : Slice)
    → AllLossless algorithms
    → IsKnown tp
    → Apart slice (use_all history new_compressor_manager)
    → let st = use_all history new_compressor_manager in
      IsValid st
      × (slice' : Slice) × (st' : Manager) × (compress algorithms tp (some slice) st
          ≡ (ok (some slice'), st'))
      × (decompress algorithms tp (some (read_slice slice' st')) ≡ ok (some (read_slice slice st)))
unfolding new_compressor_manager
decompress-use_all history algorithms tp slice l k h =
    let st = use_all history new_compressor_manager in
    let valid = use_all-IsValid history new_compressor_manager tt in
    let (slice', st', compressed, restored, after) =
      decompress-compress algorithms tp slice st l k h valid in
    (valid, slice', st', compressed, restored)
