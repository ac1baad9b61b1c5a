-- ===== src/Compressor/Aliasing.antt =====
-- The slice that a compressing method returns lies in a buffer which is back in the pool.
use go_reverse_rpc.Base.{
  ℕ, ◌+◌, ◌≤◌, ◌<◌, ◌≡◌, refl, sym, ap, subst, ◌∙◌, Bytes, arith, length, take, drop, List, [], ◌∷◌,
  ◌++◌, Bool-cases, inl, inr, leb, length-append, length-take_of_le, length-drop, take-take_of_le,
}
use mathlib.Core.Path.{ap₂, subst₂}
use go_reverse_rpc.Errors.{ok}
use go_reverse_rpc.Base.{some}
use go_reverse_rpc.Compressor.Buffers.{
  Buffer, Slice, Manager, overwrite, write, write_in_place, write_all, read_slice, get_buffer,
  take_buffer, put_buffer, reset, bytes,
}
use go_reverse_rpc.Compressor.Writes.{
  IsValid, InUse, write_all-Written, joined, content, update_self,
}
use go_reverse_rpc.Compressor.RoundTrip.{output, Lossless, compress_with-Compresses}
use go_reverse_rpc.Compressor.{Algorithm, apart, compress_with, Compressed}

length-overwrite_same :
    (n : ℕ) (chunk old : Bytes)
    → n + length chunk ≤ length old
    → length (overwrite n chunk old) ≡ length old
length-overwrite_same n chunk old h = omega (
  arith,
  length-append (take n old) (chunk ++ drop (n + length chunk) old),
  length-append chunk (drop (n + length chunk) old),
  length-take_of_le n old (omega arith),
  length-drop (n + length chunk) old,
)

-- Writes that fit stay in the array.
record Stays (buf : Buffer) (st : Manager) (n : ℕ) (buf' : Buffer) (st' : Manager) : Type 0 where
  same_array : buf'.array ≡ buf.array
  same_room : length (st'.arrays buf.array) ≡ length (st.arrays buf.array)
  advanced : buf'.len ≡ buf.len + n

write-Stays :
    (spare : ℕ) (chunk : Bytes) (buf : Buffer) (st : Manager)
    → buf.len + length chunk ≤ length (st.arrays buf.array)
    → let out = write spare chunk buf st in Stays buf st (length chunk) out.0 out.1
unfolding write write_in_place
write-Stays spare chunk buf st h =
    elim (Bool-cases (leb (buf.len + length chunk) (length (st.arrays buf.array)))) [
      | inl e ↦ rw e (record {
        same_array = refl;
        same_room =
            ap length (update_self st.arrays buf.array _)
            ∙ length-overwrite_same buf.len chunk (st.arrays buf.array) h;
        advanced = refl;
      })
      | inr e ↦ absurd (ground arith)
    ]

write_all-Stays :
    (spare : ℕ) (chunks : List Bytes) (buf : Buffer) (st : Manager)
    → buf.len + length (joined chunks) ≤ length (st.arrays buf.array)
    → let out = write_all spare chunks buf st in Stays buf st (length (joined chunks)) out.0 out.1
unfolding write_all
write_all-Stays spare [] buf st h = record {
  same_array = refl;
  same_room = refl;
  advanced = omega arith;
}
write_all-Stays spare (chunk ∷ chunks) buf st h =
    let (buf', st') = write spare chunk buf st in
    let total = length-append chunk (joined chunks) in
    let first = write-Stays spare chunk buf st (omega (arith, total)) in
    let room : length (st'.arrays buf'.array) ≡ length (st.arrays buf.array) =
      ap (λ (n : ℕ). length (st'.arrays n)) first.same_array ∙ first.same_room in
    let rest = write_all-Stays spare chunks buf' st' (omega (arith, total, room, first.advanced)) in
    record {
      same_array = rest.same_array ∙ first.same_array;
      same_room =
          ap (λ (n : ℕ). length ((write_all spare chunks buf' st').1.arrays n))
            (sym first.same_array)
          ∙ rest.same_room
          ∙ room;
      advanced = omega (arith, total, first.advanced, rest.advanced);
    }

-- The buffer and the heap after both rows of writes.
filled : Algorithm → Bytes → Buffer → Manager → Buffer × Manager
filled a c buf st =
    let (buf', st') = write_all a.spare (a.write_chunks (apart c)) (reset buf) st in
    write_all a.spare (a.close_chunks (apart c)) buf' st'

compress_with-filled :
    (a : Algorithm) (c : Bytes) (st : Manager)
    → Lossless a
    → let (buf, st') = filled a c (get_buffer st).0 (get_buffer st).1 in
      compress_with a (apart c) st ≡ (ok (some (bytes buf)), put_buffer buf st')
unfolding compress_with filled
compress_with-filled a c st l = ground (arith, l.writes c, l.closes c)

-- Output that fits into the array of a buffer is left there.
filled-reuses :
    (a : Algorithm) (c : Bytes) (buf : Buffer) (st : Manager)
    → buf.array < st.next
    → length (output a c) ≤ length (st.arrays buf.array)
    → take (length (output a c)) ((filled a c buf st).1.arrays buf.array) ≡ output a c
unfolding filled reset
filled-reuses a c buf st h fits =
    let (buf₂, st₂) = write_all a.spare (a.write_chunks (apart c)) (reset buf) st in
    let total =
      length-append (joined (a.write_chunks (apart c))) (joined (a.close_chunks (apart c))) in
    let ready : InUse (reset buf) st = record { allocated = h; fits = omega arith } in
    let first = write_all-Written a.spare (a.write_chunks (apart c)) (reset buf) st ready in
    let second = write_all-Written a.spare (a.close_chunks (apart c)) buf₂ st₂ first.in_use in
    let stay =
      write_all-Stays a.spare (a.write_chunks (apart c)) (reset buf) st (omega (arith, total)) in
    let room : length (st₂.arrays buf₂.array) ≡ length (st.arrays buf.array) =
      ap (λ (n : ℕ). length (st₂.arrays n)) stay.same_array ∙ stay.same_room in
    let stay₂ =
      write_all-Stays a.spare (a.close_chunks (apart c)) buf₂ st₂
        (omega (arith, total, room, stay.advanced)) in
    let out = filled a c buf st in
    let same : out.0.array ≡ buf.array = stay₂.same_array ∙ stay.same_array in
    let len : out.0.len ≡ length (output a c) =
      omega (arith, total, stay.advanced, stay₂.advanced) in
    let holds : content out.0 out.1 ≡ output a c =
      second.appended ∙ ap (λ (b : Bytes). b ++ joined (a.close_chunks (apart c))) first.appended in
    subst₂ (λ n x. take n (out.1.arrays x) ≡ output a c) len same holds

put-compress_with :
    (a : Algorithm) (d : Bytes) (buf : Buffer) (st : Manager) (k : ℕ)
    → Lossless a
    → buf.array < st.next
    → k ≤ length (output a d)
    → length (output a d) ≤ length (st.arrays buf.array)
    → take k ((compress_with a (apart d) (put_buffer buf st)).1.arrays buf.array)
      ≡ take k (output a d)
unfolding put_buffer get_buffer take_buffer
put-compress_with a d buf st k l h shorter fits =
    rw (compress_with-filled a d (put_buffer buf st) l) (
      sym (take-take_of_le k (length (output a d)) ((filled a d buf st).1.arrays buf.array) shorter)
      ∙ ap (take k) (filled-reuses a d buf st h fits))

-- Two compressions in a row with one package that keeps its contract, over a valid pool, of content
-- apart from the buffers that they write to. If the second output is no shorter than the first
-- slice and fits into the array of that slice, then after the second compression the first slice
-- reads as the start of the second output.
pub compress_with-overwrites :
    (a : Algorithm) (c d : Bytes) (st st' : Manager) (slice : Slice)
    → Lossless a
    → IsValid st
    → compress_with a (apart c) st ≡ (ok (some slice), st')
    → slice.len ≤ length (output a d)
    → length (output a d) ≤ length (st'.arrays slice.array)
    → read_slice slice (compress_with a (apart d) st').1 ≡ take slice.len (output a d)
unfolding put_buffer read_slice bytes
compress_with-overwrites a c d st st' slice l v e shorter fits =
    let (buf, base) = filled a c (get_buffer st).0 (get_buffer st).1 in
    let same = sym e ∙ compress_with-filled a c st l in
    let good = compress_with-Compresses a c st l v in
    let valid : IsValid (put_buffer buf base) =
      subst IsValid
        (ap (λ (p : Compressed × Manager). p.1) (sym good.result ∙ compress_with-filled a c st l))
        good.valid in
    let at_slice : slice ≡ bytes buf = cc in
    let at_st : st' ≡ put_buffer buf base = ap (λ (p : Compressed × Manager). p.1) same in
    let len : slice.len ≡ buf.len = ap (λ (x : Slice). x.len) at_slice in
    let room : length (st'.arrays slice.array) ≡ length (base.arrays buf.array) =
      ap₂ (λ (x : Slice) (m : Manager). length (m.arrays x.array)) at_slice at_st in
    subst₂
      (λ (x : Slice) (m : Manager).
        read_slice x (compress_with a (apart d) m).1 ≡ take x.len (output a d))
      (sym at_slice) (sym at_st)
      (put-compress_with a d buf base buf.len l valid.0 (omega arith) (omega arith))
