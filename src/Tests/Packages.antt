-- ===== src/Tests/Packages.antt =====
-- Compression packages that keep their contracts, and the manager's theorems at them.
use mathlib.Core.List.{append-nil}
use go_reverse_rpc.Base.{
  ℕ, zero, suc, ◌≡◌, refl, ap, ◌∙◌, ℕ_eq, inl, none, some, List, [], ◌∷◌, ◌++◌, Bytes, lit, take,
  arith, bytes_eq,
}
use go_reverse_rpc.Base.Int.{ℤ_eq}
use go_reverse_rpc.Errors.{eof, Result, ok, err}
use go_reverse_rpc.Compressor.{
  Input, apart, shared, input_of, Algorithm, Algorithms, content_encoding_gzip, compress,
  compress_with, decompress, gzip_decompress, zlib_decompress, brotli_decompress,
}
use go_reverse_rpc.Compressor.Buffers.{
  Slice, Manager, new_compressor_manager, read_slice, write, write_moved,
}
use go_reverse_rpc.Compressor.Writes.{IsValid}
use go_reverse_rpc.Compressor.RoundTrip.{Apart, output, Lossless, AllLossless}
use go_reverse_rpc.Compressor.Lifetime.{Used, allocates, compresses, use_all, decompress-use_all}
use go_reverse_rpc.Compressor.Aliasing.{compress_with-overwrites}
use go_reverse_rpc.Mqttpb.Codec.RoundTrip.{EmptyInput}

abbrev strip_mark : Bytes → Result Bytes
strip_mark [] = err eof
strip_mark (b ∷ content) = ok content

abbrev strip_any : Bytes → Result Bytes
strip_any [] = ok []
strip_any (b ∷ content) = ok content

-- What is read where the content shares the buffer's array: what the array held.
abbrev seen : Input → Bytes
seen (apart c) = c
seen (shared slice held) = take slice.len held

-- A mark in front of the content; the end adds nothing.
abbrev marking : ℕ → Algorithm
marking mark = record {
  write_chunks = λ input. (mark ∷ seen input) ∷ [];
  write_error = λ c. none;
  close_chunks = λ c. [];
  close_error = λ c. none;
  open_error = λ c. none;
  read_all = strip_mark;
  spare = 2;
}

marking-Lossless : (mark : ℕ) → Lossless (marking mark)
marking-Lossless mark = record {
  writes = λ c. refl;
  closes = λ c. refl;
  opens = λ c. refl;
  reads = λ c. ap (λ (c : Bytes). ok c) (ap (λ (c : Bytes). c ++ []) (append-nil c) ∙ append-nil c);
}

abbrev pub packages : Algorithms
packages = record {
  gzip = marking 1;
  zlib = marking 2;
  brotli = record (marking 3) { read_all = strip_any };
}

pub packages-Lossless : AllLossless packages
packages-Lossless = record {
  gzip = marking-Lossless 1;
  zlib = marking-Lossless 2;
  brotli = record {
    writes = λ c. refl;
    closes = λ c. refl;
    opens = λ c. refl;
    reads = (marking-Lossless 3).reads;
  };
}

pub packages-EmptyInput : EmptyInput packages
unfolding gzip_decompress zlib_decompress brotli_decompress
packages-EmptyInput = record {
  gzip = λ c e. ground arith;
  zlib = λ c e. ground arith;
  brotli = refl;
}

abbrev arrays : ℕ → Bytes
arrays zero = lit "hello"
arrays (suc a) = []

-- The content "hello" in array 0, and a used buffer in the pool.
abbrev pub manager : Manager
manager = record { arrays = arrays; next = 2; buffer_pool = record { array = 1; len = 4 } ∷ [] }

pub manager-IsValid : IsValid manager
manager-IsValid = (omega arith, tt)

abbrev hello : Slice
hello = record { array = 0; len = 5 }

after : Manager
unfolding compress_with
after = (compress_with (marking 1) (apart (lit "ab")) manager).1

-- Of "ab" and of "cde": the second output takes the place of the first.
compress_with-overwrites_example :
    read_slice
      (record { array = 2; len = 3 })
      (compress_with (marking 1) (apart (lit "cde")) after).1
    ≡ take 3 (output (marking 1) (lit "cde"))
unfolding after compress_with write write_moved ℕ_eq
compress_with-overwrites_example =
    compress_with-overwrites (marking 1) (lit "ab") (lit "cde") manager after
      (record { array = 2; len = 3 }) (marking-Lossless 1) manager-IsValid refl (omega arith)
      (omega arith)

-- Packages whose writers fail.
abbrev failing : Algorithm
failing = record (marking 7) { close_error = λ c. some eof }

abbrev history : List Used
history =
    allocates (lit "hello")
    ∷ compresses (record { gzip = failing; zlib = failing; brotli = failing }) content_encoding_gzip
        (some hello)
    ∷ []

hello-Apart : Apart hello (use_all history new_compressor_manager)
unfolding compress compress_with input_of write write_moved ℕ_eq ℤ_eq new_compressor_manager
hello-Apart = record { allocated = omega arith; unshared = (omega arith, tt) }

decompress-use_all_example :
    let st = use_all history new_compressor_manager in
    IsValid st
    × (slice' : Slice) × (st' : Manager) × (compress packages content_encoding_gzip (some hello) st
        ≡ (ok (some slice'), st'))
    × (decompress packages content_encoding_gzip (some (read_slice slice' st'))
        ≡ ok (some (read_slice hello st)))
decompress-use_all_example =
    decompress-use_all history packages content_encoding_gzip hello packages-Lossless (inl refl)
      hello-Apart
