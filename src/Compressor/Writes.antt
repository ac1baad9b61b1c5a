-- ===== src/Compressor/Writes.antt =====
-- What writes to a pooled buffer leave in it, and in every other array.
use mathlib.Core.List.{append_assoc, append-nil}
use go_reverse_rpc.Base.{
  ℕ, ◌+◌, ◌≤◌, ◌<◌, ◌≡◌, ◌≢◌, refl, sym, ap, ◌∙◌, ◌⊎◌, inl, inr, Bool-cases, List, [], ◌∷◌, ◌++◌,
  Bytes, arith, leb, ℕ_eq, take, drop, length, replicate, length-append, length-take_of_le,
  take-append_length, All,
}
use go_reverse_rpc.Compressor.Buffers.{
  Buffer, Manager, update, overwrite, write, write_in_place, write_moved, write_all,
}

abbrev pub joined : List Bytes → Bytes
joined [] = []
joined (chunk ∷ chunks) = chunk ++ joined chunks

-- The pool's buffers lie in allocated arrays.
abbrev pub IsValid : Manager → Type 0
IsValid st = All (λ buf. buf.array < st.next) st.buffer_pool

pub record InUse (buf : Buffer) (st : Manager) : Type 0 where
  pub allocated : buf.array < st.next
  pub fits : buf.len ≤ length (st.arrays buf.array)

abbrev pub content : Buffer → Manager → Bytes
content buf st = take buf.len (st.arrays buf.array)

take-overwrite :
    (n : ℕ) (chunk old rest : Bytes)
    → n ≤ length old
    → take (n + length chunk) (take n old ++ (chunk ++ rest)) ≡ take n old ++ chunk
take-overwrite n chunk old rest h = rw (← append_assoc (take n old) chunk rest) (
    ap (λ k. take k ((take n old ++ chunk) ++ rest))
      (omega (arith, length-append (take n old) chunk, length-take_of_le n old h))
    ∙ take-append_length (take n old ++ chunk) rest)

length-overwrite :
    (n : ℕ) (chunk old rest : Bytes)
    → n ≤ length old
    → n + length chunk ≤ length (take n old ++ (chunk ++ rest))
length-overwrite n chunk old rest h = omega (
  arith,
  length-append (take n old) (chunk ++ rest),
  length-append chunk rest,
  length-take_of_le n old h,
)

pub update_self : (arrays : ℕ → Bytes) (a : ℕ) (c : Bytes) → update arrays a c a ≡ c
unfolding update
update_self arrays a c = ground arith

update_ne : (arrays : ℕ → Bytes) (a b : ℕ) (c : Bytes) → a ≢ b → update arrays a c b ≡ arrays b
unfolding update
update_ne arrays a b c h = ground arith

-- A write appends to the content, and touches no array but the buffer's and new ones.
pub record Written (buf : Buffer) (st : Manager) (more : Bytes) (buf' : Buffer) (st' : Manager)
    : Type 0 where
  pub in_use : InUse buf' st'
  pub appended : content buf' st' ≡ content buf st ++ more
  pub grows : st.next ≤ st'.next
  pub same_pool : st'.buffer_pool ≡ st.buffer_pool
  pub others : (a : ℕ) → a < st.next → a ≢ buf.array → st'.arrays a ≡ st.arrays a
  pub own : (buf'.array ≡ buf.array) ⊎ (st.next ≤ buf'.array)

write_in_place-Written :
    (chunk : Bytes) (buf : Buffer) (st : Manager)
    → InUse buf st
    → buf.len + length chunk ≤ length (st.arrays buf.array)
    → let out = write_in_place chunk buf st in Written buf st chunk out.0 out.1
unfolding write_in_place
write_in_place-Written chunk buf st u room =
    let old = st.arrays buf.array in
    let rest = drop (buf.len + length chunk) old in
    let now = update_self st.arrays buf.array (overwrite buf.len chunk old) in
    record {
      in_use = record {
        allocated = u.allocated;
        fits = rw now (length-overwrite buf.len chunk old rest u.fits);
      };
      appended = rw now (take-overwrite buf.len chunk old rest u.fits);
      grows = omega arith;
      same_pool = refl;
      others = λ a l n. update_ne st.arrays buf.array a _ (λ e. n (sym e));
      own = inl refl;
    }

write_moved-Written :
    (spare : ℕ) (chunk : Bytes) (buf : Buffer) (st : Manager)
    → InUse buf st
    → let out = write_moved spare chunk buf st in Written buf st chunk out.0 out.1
unfolding write_moved
write_moved-Written spare chunk buf st u =
    let old = st.arrays buf.array in
    let rest : Bytes = replicate spare 0 in
    let now = update_self st.arrays st.next (take buf.len old ++ (chunk ++ rest)) in
    record {
      in_use = record {
        allocated = omega arith;
        fits = rw now (length-overwrite buf.len chunk old rest u.fits);
      };
      appended = rw now (take-overwrite buf.len chunk old rest u.fits);
      grows = omega arith;
      same_pool = refl;
      others = λ a l n. update_ne st.arrays st.next a _ (omega arith);
      own = inr (omega arith);
    }

pub write-Written :
    (spare : ℕ) (chunk : Bytes) (buf : Buffer) (st : Manager)
    → InUse buf st
    → let out = write spare chunk buf st in Written buf st chunk out.0 out.1
unfolding write
write-Written spare chunk buf st u =
    elim (Bool-cases (leb (buf.len + length chunk) (length (st.arrays buf.array)))) [
      | inl e ↦ rw e (write_in_place-Written chunk buf st u (ground arith))
      | inr e ↦ rw e (write_moved-Written spare chunk buf st u)
    ]

Written-nil : (buf : Buffer) (st : Manager) → InUse buf st → Written buf st [] buf st
Written-nil buf st u = record {
  in_use = u;
  appended = sym (append-nil (content buf st));
  grows = omega arith;
  same_pool = refl;
  others = λ a l n. refl;
  own = inl refl;
}

pub Written-append :
    (buf buf' buf'' : Buffer) (st st' st'' : Manager) (c d : Bytes)
    → Written buf st c buf' st'
    → Written buf' st' d buf'' st''
    → Written buf st (c ++ d) buf'' st''
Written-append buf buf' buf'' st st' st'' c d v w = record {
  in_use = w.in_use;
  appended = w.appended ∙ (rw v.appended (append_assoc (content buf st) c d));
  grows = omega arith;
  same_pool = w.same_pool ∙ v.same_pool;
  others = λ a l n. w.others a (omega arith) (away a l n) ∙ v.others a l n;
  own = ground arith;
}
  where
    away : (a : ℕ) → a < st.next → a ≢ buf.array → a ≢ buf'.array
    away a l n = omega arith

pub write_all-Written :
    (spare : ℕ) (chunks : List Bytes) (buf : Buffer) (st : Manager)
    → InUse buf st
    → let out = write_all spare chunks buf st in Written buf st (joined chunks) out.0 out.1
unfolding write_all
write_all-Written spare [] buf st u = Written-nil buf st u
write_all-Written spare (chunk ∷ chunks) buf st u =
    let (buf', st') = write spare chunk buf st in
    let first = write-Written spare chunk buf st u in
    Written-append buf buf' _ st st' _ chunk (joined chunks) first
      (write_all-Written spare chunks buf' st' first.in_use)
