-- ===== src/Compressor.antt =====
-- compressor/compressor.go: compression by content encoding, with pooled buffers.
pub mod Aliasing
pub mod Buffers
pub mod Lifetime
pub mod RoundTrip
pub mod Writes
use go_reverse_rpc.Base.{
  ℕ, ℤ, pos, ◌≡◌, ℕ_eq, Option, none, some, List, [], ◌∷◌, ◌++◌, Bytes, ◌==◌, if◌then◌else◌,
}
use go_reverse_rpc.Base.Int.{ℤ_eq}
use go_reverse_rpc.Errors.{Error, unknown_content_encoding, Result, ok, err}
use Buffers.{Buffer, Slice, Manager, get_buffer, put_buffer, reset, write_all, read_slice, bytes}

-- `type ContentEncoding int`
abbrev pub ContentEncoding : Type 0
ContentEncoding = ℤ

abbrev pub content_encoding_gzip : ContentEncoding
content_encoding_gzip = pos 0

abbrev pub content_encoding_deflate : ContentEncoding
content_encoding_deflate = pos 1

abbrev pub content_encoding_brotli : ContentEncoding
content_encoding_brotli = pos 2

abbrev pub content_encoding_plain : ContentEncoding
content_encoding_plain = pos 3

-- The content that a writer is given: apart from the buffer that it writes to, or a slice of the
-- very array of that buffer, with what the array held. Then the writer overwrites what it has yet
-- to read, and what it sends is all that the package says of it.
pub data Input : Type 0 where
  apart : Bytes → Input
  shared : Slice → Bytes → Input

-- A compression package. A writer sends chunks to its buffer in `Write` and in `Close`, each of
-- which may fail; a reader may fail when it is opened, and when it is read to its end. `spare` is
-- the room that a buffer adds when it grows.
pub record Algorithm : Type 0 where
  pub write_chunks : Input → List Bytes
  pub write_error : Input → Option Error
  pub close_chunks : Input → List Bytes
  pub close_error : Input → Option Error
  pub open_error : Bytes → Option Error
  pub read_all : Bytes → Result Bytes
  pub spare : ℕ

pub record Algorithms : Type 0 where
  pub gzip : Algorithm
  pub zlib : Algorithm
  pub brotli : Algorithm

-- `[]byte`: nil, or a slice of an array. The result of a call is a slice with an error.
abbrev pub Compressed : Type 0
Compressed = Result (Option Slice)

-- A slice as it meets the buffer that the pool gives next.
unfoldable pub input_of : Slice → Manager → Input
unfolding get_buffer read_slice
input_of slice st =
    if slice.array == (get_buffer st).0.array
    then shared slice (st.arrays slice.array)
    else apart (read_slice slice st)

-- The body that the three compressing methods share.
unfoldable pub compress_with : Algorithm → Input → Manager → Compressed × Manager
unfolding get_buffer put_buffer reset write_all bytes
compress_with a content st =
    let (buf, st₁) = get_buffer st in
    let (buf₂, st₂) = write_all a.spare (a.write_chunks content) (reset buf) st₁ in
    let (buf₃, st₃) = write_all a.spare (a.close_chunks content) buf₂ st₂ in
    elim (a.write_error content) [
      | some e ↦ (err e, put_buffer buf₂ st₂)
      | none ↦ elim (a.close_error content) [
        | some e ↦ (err e, put_buffer buf₃ st₃)
        | none ↦ (ok (some (bytes buf₃)), put_buffer buf₃ st₃)
      ]
    ]

-- The body that the three decompressing methods share; the pooled reader is reset before use and
-- keeps nothing. `brotli.NewReader` cannot fail: its `open_error` is not asked.
unfoldable pub decompress_with : Algorithm → Bytes → Result Bytes
decompress_with a content = elim (a.open_error content) [
  | some e ↦ err e
  | none ↦ a.read_all content
]

abbrev pub present : Result Bytes → Result (Option Bytes)
present (ok content) = ok (some content)
present (err e) = err e

module _ (algorithms : Algorithms) where
  unfoldable pub gzip_compress : Input → Manager → Compressed × Manager
  unfolding compress_with
  gzip_compress = compress_with algorithms.gzip

  unfoldable pub zlib_compress : Input → Manager → Compressed × Manager
  unfolding compress_with
  zlib_compress = compress_with algorithms.zlib

  unfoldable pub brotli_compress : Input → Manager → Compressed × Manager
  unfolding compress_with
  brotli_compress = compress_with algorithms.brotli

  unfoldable pub gzip_decompress : Bytes → Result Bytes
  unfolding decompress_with
  gzip_decompress = decompress_with algorithms.gzip

  unfoldable pub zlib_decompress : Bytes → Result Bytes
  unfolding decompress_with
  zlib_decompress = decompress_with algorithms.zlib

  unfoldable pub brotli_decompress : Bytes → Result Bytes
  brotli_decompress content = algorithms.brotli.read_all content

  -- `Compress`. Only the plain encoding hands the caller's slice back.
  unfoldable pub compress : ContentEncoding → Option Slice → Manager → Compressed × Manager
  unfolding gzip_compress zlib_compress brotli_compress input_of
  compress tp none st = (ok none, st)
  compress tp (some slice) st =
      let content = input_of slice st in
      if tp == content_encoding_gzip
      then gzip_compress content st
      else if tp == content_encoding_deflate
      then zlib_compress content st
      else if tp == content_encoding_brotli
      then brotli_compress content st
      else if tp == content_encoding_plain
      then (ok (some slice), st)
      else (err unknown_content_encoding, st)

  -- `Decompress`. Its result is a new slice, or with the plain encoding the caller's.
  unfoldable pub decompress : ContentEncoding → Option Bytes → Result (Option Bytes)
  unfolding gzip_decompress zlib_decompress brotli_decompress
  decompress tp none = ok none
  decompress tp (some content) =
      if tp == content_encoding_gzip
      then present (gzip_decompress content)
      else if tp == content_encoding_deflate
      then present (zlib_decompress content)
      else if tp == content_encoding_brotli
      then present (brotli_decompress content)
      else if tp == content_encoding_plain
      then ok (some content)
      else err unknown_content_encoding
