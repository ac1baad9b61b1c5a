-- ===== src/Compressor/RoundTrip.antt =====
-- Compression and decompression with one encoding are inverse, whatever buffers the pool holds.
use go_reverse_rpc.Base.{
  ℕ, ℕ_eq, suc, ◌≤◌, ◌<◌, ◌≡◌, ◌≢◌, refl, sym, subst, ◌⊎◌, inl, inr, none, some, List, [], ◌∷◌,
  ◌++◌, Bytes, arith, All,
}
use go_reverse_rpc.Base.Int.{ℤ_eq}
use go_reverse_rpc.Errors.{ok}
use go_reverse_rpc.Compressor.Buffers.{
  Buffer, Slice, Manager, get_buffer, take_buffer, new_buffer, put_buffer, reset, write_all,
  read_slice, bytes,
}
use go_reverse_rpc.Compressor.Writes.{IsValid, InUse, Written-append, write_all-Written, joined}
use go_reverse_rpc.Compressor.{
  ContentEncoding, content_encoding_gzip, content_encoding_deflate, content_encoding_brotli,
  content_encoding_plain, Algorithm, Algorithms, apart, input_of, compress_with, compress,
  decompress, decompress_with,
}

-- All that the writer of an algorithm sends to its buffer, for content apart from it.
abbrev pub output : Algorithm → Bytes → Bytes
output a c = joined (a.write_chunks (apart c)) ++ joined (a.close_chunks (apart c))

-- The documented contract of a compression package: no error on a buffer in memory, and a reader
-- that gives back what was written.
pub record Lossless (a : Algorithm) : Type 0 where
  pub writes : (c : Bytes) → a.write_error (apart c) ≡ none
  pub closes : (c : Bytes) → a.close_error (apart c) ≡ none
  pub opens : (c : Bytes) → a.open_error (output a c) ≡ none
  pub reads : (c : Bytes) → a.read_all (output a c) ≡ ok c

pub record AllLossless (algorithms : Algorithms) : Type 0 where
  pub gzip : Lossless algorithms.gzip
  pub zlib : Lossless algorithms.zlib
  pub brotli : Lossless algorithms.brotli

pub pool_mono :
    (n m : ℕ) (pool : List Buffer)
    → n ≤ m
    → All (λ buf. buf.array < n) pool
    → All (λ buf. buf.array < m) pool
pool_mono n m [] h v = tt
pool_mono n m (buf ∷ pool) h v = (omega arith, pool_mono n m pool h v.1)

-- A buffer that is ready for writes, beside a valid pool.
pub record Ready (st : Manager) (buf : Buffer) (st' : Manager) : Type 0 where
  pub in_use : InUse buf st'
  pub empty : buf.len ≡ 0
  pub valid : IsValid st'
  pub grows : st.next ≤ st'.next

take_buffer-Ready :
    (pool : List Buffer) (st : Manager)
    → st.buffer_pool ≡ pool
    → All (λ buf. buf.array < st.next) pool
    → let out = take_buffer pool st in Ready st (reset out.0) out.1
unfolding take_buffer new_buffer reset
take_buffer-Ready [] st e v = record {
  in_use = record { allocated = omega arith; fits = omega arith };
  empty = refl;
  valid = subst (All (λ buf. buf.array < suc st.next)) (sym e) tt;
  grows = omega arith;
}
take_buffer-Ready (buf ∷ pool) st e v = record {
  in_use = record { allocated = v.0; fits = omega arith };
  empty = refl;
  valid = v.1;
  grows = omega arith;
}

pub get_buffer-Ready :
    (st : Manager) → IsValid st → let out = get_buffer st in Ready st (reset out.0) out.1
unfolding get_buffer
get_buffer-Ready st v = take_buffer-Ready st.buffer_pool st refl v

-- A compressing call succeeds, its slice holds the writer's output, and the pool stays valid.
pub record Compresses (a : Algorithm) (c : Bytes) (st : Manager) : Type 0 where
  pub slice : Slice
  pub after : Manager
  pub result : compress_with a (apart c) st ≡ (ok (some slice), after)
  pub holds : read_slice slice after ≡ output a c
  pub valid : IsValid after

pub compress_with-Compresses :
    (a : Algorithm) (c : Bytes) (st : Manager) → Lossless a → IsValid st → Compresses a c st
unfolding compress_with bytes read_slice put_buffer
compress_with-Compresses a c st l v =
    let (buf₁, st₁) = get_buffer st in
    let ready = get_buffer-Ready st v in
    let (buf₂, st₂) = write_all a.spare (a.write_chunks (apart c)) (reset buf₁) st₁ in
    let (buf₃, st₃) = write_all a.spare (a.close_chunks (apart c)) buf₂ st₂ in
    let first =
      write_all-Written a.spare (a.write_chunks (apart c)) (reset buf₁) st₁ ready.in_use in
    let second = write_all-Written a.spare (a.close_chunks (apart c)) buf₂ st₂ first.in_use in
    let both =
      Written-append (reset buf₁) buf₂ buf₃ st₁ st₂ st₃ (joined (a.write_chunks (apart c)))
        (joined (a.close_chunks (apart c))) first second in
    let pool₃ : IsValid st₃ =
      rw both.same_pool (pool_mono st₁.next st₃.next st₁.buffer_pool both.grows ready.valid) in
    record {
      slice = bytes buf₃;
      after = put_buffer buf₃ st₃;
      result = ground (arith, l.writes c, l.closes c);
      holds = both.appended;
      valid = (both.in_use.allocated, pool₃);
    }

decompress_with-output :
    (a : Algorithm) (c : Bytes) → Lossless a → decompress_with a (output a c) ≡ ok c
unfolding decompress_with
decompress_with-output a c l = rw (l.opens c, decompress_with) (l.reads c)

abbrev pub IsKnown : ContentEncoding → Type 0
IsKnown tp =
    (tp ≡ content_encoding_gzip)
    ⊎ (tp ≡ content_encoding_deflate)
    ⊎ (tp ≡ content_encoding_brotli)
    ⊎ (tp ≡ content_encoding_plain)

-- A slice of an allocated array that no buffer of the pool lies in.
pub record Apart (slice : Slice) (st : Manager) : Type 0 where
  pub allocated : slice.array < st.next
  pub unshared : All (λ buf. slice.array ≢ buf.array) st.buffer_pool

take_buffer-Apart :
    (pool : List Buffer) (slice : Slice) (st : Manager)
    → slice.array < st.next
    → All (λ buf. slice.array ≢ buf.array) pool
    → slice.array ≢ (take_buffer pool st).0.array
unfolding take_buffer new_buffer
take_buffer-Apart [] slice st h v = omega arith
take_buffer-Apart (buf ∷ pool) slice st h v = v.0

input_of-Apart :
    (slice : Slice) (st : Manager)
    → Apart slice st
    → input_of slice st ≡ apart (read_slice slice st)
unfolding input_of get_buffer
input_of-Apart slice st h =
    ground (arith, take_buffer-Apart st.buffer_pool slice st h.allocated h.unshared)

-- With the four encodings of the package, packages that keep their contract, any pool of buffers in
-- allocated arrays, and a slice apart from them: `Compress` succeeds, the slice that it returns
-- decompresses at once to the content of the slice that it was given, and the pool's buffers are
-- again in allocated arrays.
pub decompress-compress :
    (algorithms : Algorithms) (tp : ContentEncoding) (slice : Slice) (st : Manager)
    → AllLossless algorithms
    → IsKnown tp
    → Apart slice st
    → IsValid st
    → (slice' : Slice) × (st' : Manager) × (compress algorithms tp (some slice) st
        ≡ (ok (some slice'), st'))
      × (decompress algorithms tp (some (read_slice slice' st')) ≡ ok (some (read_slice slice st)))
      × IsValid st'
unfolding compress decompress
decompress-compress algorithms tp slice st l (inl e) h v =
    let c = read_slice slice st in
    let input = input_of-Apart slice st h in
    let out = compress_with-Compresses algorithms.gzip c st l.gzip v in
    let back = decompress_with-output algorithms.gzip c l.gzip in
    (
      out.slice,
      out.after,
      ground (arith, input, out.result),
      ground (arith, out.holds, back),
      out.valid,
    )
decompress-compress algorithms tp slice st l (inr (inl e)) h v =
    let c = read_slice slice st in
    let input = input_of-Apart slice st h in
    let out = compress_with-Compresses algorithms.zlib c st l.zlib v in
    let back = decompress_with-output algorithms.zlib c l.zlib in
    (
      out.slice,
      out.after,
      ground (arith, input, out.result),
      ground (arith, out.holds, back),
      out.valid,
    )
decompress-compress algorithms tp slice st l (inr (inr (inl e))) h v =
    let c = read_slice slice st in
    let input = input_of-Apart slice st h in
    let out = compress_with-Compresses algorithms.brotli c st l.brotli v in
    (
      out.slice,
      out.after,
      ground (arith, input, out.result),
      ground (arith, out.holds, l.brotli.reads c),
      out.valid,
    )
decompress-compress algorithms tp slice st l (inr (inr (inr e))) h v =
    (slice, st, ground arith, ground arith, v)
