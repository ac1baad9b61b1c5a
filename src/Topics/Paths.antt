-- ===== src/Topics/Paths.antt =====
-- `path.Join` on topics: the segments that are not empty, between single slashes.
use mathlib.Core.List.{reverse, reverse-cons, append_assoc, append-nil}
use go_reverse_rpc.Base.{
  ℕ, ◌≡◌, ◌≢◌, refl, sym, ap, ◌∙◌, Bool, false, List, [], ◌∷◌, ◌++◌, Bytes, bytes_eq, ℕ_eq, lit,
  if◌then◌else◌, arith, All,
}
use go_reverse_rpc.Topics.{
  split_slash, clean_segment, clean_segments, join_slash, is_rooted, or_dot, clean, drop_empties,
  clean_joined, join,
}

-- A part of a path that cleaning keeps or, if it is empty, drops.
abbrev pub NoDots : Bytes → Type 0
NoDots segment = (segment ≢ lit ".") × (segment ≢ lit "..")

-- One level of a topic.
abbrev pub IsSegment : Bytes → Type 0
IsSegment segment = NoDots segment × (segment ≢ []) × All (λ c. c ≢ b'/') segment

split_slash-append :
    (collected text rest : Bytes)
    → split_slash collected (text ++ b'/' ∷ rest)
      ≡ split_slash collected text ++ split_slash [] rest
unfolding split_slash ℕ_eq
split_slash-append collected [] rest = refl
split_slash-append collected (c ∷ cs) rest =
    ground (arith, split_slash-append [] cs rest, split_slash-append (c ∷ collected) cs rest)

split_slash-segment :
    (collected text : Bytes)
    → All (λ c. c ≢ b'/') text
    → split_slash collected text ≡ (reverse collected ++ text) ∷ []
unfolding split_slash
split_slash-segment collected [] a = ap (λ s. s ∷ []) (sym (append-nil (reverse collected)))
split_slash-segment collected (c ∷ cs) a = ground (
  arith,
  split_slash-segment (c ∷ collected) cs a.1,
  reverse-cons c collected,
  append_assoc (reverse collected) (c ∷ []) cs,
)

clean_segments-NoDots :
    (rooted : Bool) (stack segments : List Bytes)
    → All NoDots segments
    → clean_segments rooted stack segments ≡ reverse stack ++ drop_empties segments
unfolding clean_segments clean_segment drop_empties
clean_segments-NoDots rooted stack [] a = sym (append-nil (reverse stack))
clean_segments-NoDots rooted stack (s ∷ ss) a = ground (
  arith,
  clean_segments-NoDots rooted stack ss a.1,
  clean_segments-NoDots rooted (s ∷ stack) ss a.1,
  reverse-cons s stack,
  append_assoc (reverse stack) (s ∷ []) (drop_empties ss),
)

drop_empties-append :
    (xs ys : List Bytes) → drop_empties (xs ++ ys) ≡ drop_empties xs ++ drop_empties ys
unfolding drop_empties
drop_empties-append [] ys = refl
drop_empties-append (x ∷ xs) ys = ground (arith, drop_empties-append xs ys)

All-append : (P : Bytes → Type 0) (xs ys : List Bytes) → All P xs → All P ys → All P (xs ++ ys)
All-append P [] ys a b = b
All-append P (x ∷ xs) ys a b = (a.0, All-append P xs ys a.1 b)

join_slash-append :
    (xs : List Bytes) (x y : Bytes) (ys : List Bytes)
    → join_slash (xs ++ (x ∷ y ∷ ys)) ≡ join_slash (xs ++ x ∷ []) ++ (b'/' ∷ join_slash (y ∷ ys))
unfolding join_slash
join_slash-append [] x y ys = refl
join_slash-append (z ∷ []) x y ys = sym (append_assoc z (b'/' ∷ x) (b'/' ∷ join_slash (y ∷ ys)))
join_slash-append (z ∷ z' ∷ zs) x y ys =
    ap (λ (rest : Bytes). z ++ (b'/' ∷ rest)) (join_slash-append (z' ∷ zs) x y ys)
    ∙ sym (append_assoc z (b'/' ∷ join_slash ((z' ∷ zs) ++ x ∷ [])) (b'/' ∷ join_slash (y ∷ ys)))

-- The levels of a text, and what stands before the first.
abbrev pub levels : Bytes → List Bytes
levels text = drop_empties (split_slash [] text)

abbrev pub lead : Bytes → Bytes
lead text = if is_rooted text then lit "/" else []

clean_lem :
    (text : Bytes)
    → All NoDots (split_slash [] text)
    → clean text ≡ (
        if is_rooted text
        then b'/' ∷ join_slash (levels text)
        else or_dot (join_slash (levels text)))
unfolding clean
clean_lem text a =
    ap
      (λ (ss : List Bytes). if is_rooted text then b'/' ∷ join_slash ss else or_dot (join_slash ss))
      (clean_segments-NoDots (is_rooted text) [] (split_slash [] text) a)

drop_empties-segments : (ss : List Bytes) → All IsSegment ss → drop_empties ss ≡ ss
unfolding drop_empties
drop_empties-segments [] a = refl
drop_empties-segments (s ∷ ss) a = ground (arith, drop_empties-segments ss a.1)

segments-NoDots : (ss : List Bytes) → All IsSegment ss → All NoDots ss
segments-NoDots [] a = tt
segments-NoDots (s ∷ ss) a = (a.0.0, segments-NoDots ss a.1)

split_slash-join_slash :
    (s : Bytes) (ss : List Bytes)
    → All IsSegment (s ∷ ss)
    → split_slash [] (join_slash (s ∷ ss)) ≡ s ∷ ss
unfolding join_slash
split_slash-join_slash s [] a = split_slash-segment [] s a.0.2
split_slash-join_slash s (t ∷ ts) a =
    split_slash-append [] s (join_slash (t ∷ ts))
    ∙ ground (arith, split_slash-segment [] s a.0.2, split_slash-join_slash t ts a.1)

or_dot-join_slash :
    (xs : List Bytes) (s : Bytes) (ss : List Bytes)
    → s ≢ []
    → or_dot (join_slash (xs ++ (s ∷ ss))) ≡ join_slash (xs ++ (s ∷ ss))
unfolding join_slash
or_dot-join_slash [] [] ss h = absurd (h refl)
or_dot-join_slash [] (c ∷ cs) [] h = refl
or_dot-join_slash [] (c ∷ cs) (t ∷ ts) h = refl
or_dot-join_slash ([] ∷ []) s ss h = refl
or_dot-join_slash ((c ∷ cs) ∷ []) s ss h = refl
or_dot-join_slash ([] ∷ x ∷ xs) s ss h = refl
or_dot-join_slash ((c ∷ cs) ∷ x ∷ xs) s ss h = refl

segment-unrooted :
    (s : Bytes) (ss : List Bytes) → IsSegment s → is_rooted (join_slash (s ∷ ss)) ≡ false
unfolding join_slash
segment-unrooted [] ss a = absurd (a.1 refl)
segment-unrooted (c ∷ cs) [] a = ground arith
segment-unrooted (c ∷ cs) (t ∷ ts) a = ground arith

-- Joined segments are their own cleaned form.
clean-join_slash :
    (s : Bytes) (ss : List Bytes)
    → All IsSegment (s ∷ ss)
    → clean (join_slash (s ∷ ss)) ≡ join_slash (s ∷ ss)
clean-join_slash s ss a =
    let split = split_slash-join_slash s ss a in
    clean_lem (join_slash (s ∷ ss)) (rw split (segments-NoDots (s ∷ ss) a))
    ∙ ground (
      arith,
      split,
      drop_empties-segments (s ∷ ss) a,
      segment-unrooted s ss a.0,
      or_dot-join_slash [] s ss a.0.1,
    )

levels-append :
    (text s : Bytes) (ss : List Bytes)
    → All IsSegment (s ∷ ss)
    → levels (text ++ b'/' ∷ join_slash (s ∷ ss)) ≡ levels text ++ (s ∷ ss)
levels-append text s ss a =
    ap drop_empties (split_slash-append [] text (join_slash (s ∷ ss)))
    ∙ drop_empties-append (split_slash [] text) (split_slash [] (join_slash (s ∷ ss)))
    ∙ ap (λ (ts : List Bytes). levels text ++ ts)
        (ap drop_empties (split_slash-join_slash s ss a) ∙ drop_empties-segments (s ∷ ss) a)

append-NoDots :
    (text s : Bytes) (ss : List Bytes)
    → All NoDots (split_slash [] text)
    → All IsSegment (s ∷ ss)
    → All NoDots (split_slash [] (text ++ b'/' ∷ join_slash (s ∷ ss)))
append-NoDots text s ss n a =
    rw (split_slash-append [] text (join_slash (s ∷ ss)))
      (All-append NoDots _ _ n (rw (split_slash-join_slash s ss a) (segments-NoDots (s ∷ ss) a)))

clean-append :
    (c : ℕ) (cs s : Bytes) (ss : List Bytes)
    → All NoDots (split_slash [] (c ∷ cs))
    → All IsSegment (s ∷ ss)
    → clean ((c ∷ cs) ++ b'/' ∷ join_slash (s ∷ ss))
      ≡ lead (c ∷ cs) ++ join_slash (levels (c ∷ cs) ++ (s ∷ ss))
clean-append c cs s ss n a =
    clean_lem ((c ∷ cs) ++ b'/' ∷ join_slash (s ∷ ss)) (append-NoDots (c ∷ cs) s ss n a)
    ∙ ground (arith, levels-append (c ∷ cs) s ss a, or_dot-join_slash (levels (c ∷ cs)) s ss a.0.1)

-- `path.Join` of any text without `.` and `..` levels, and of segments.
pub join-segments :
    (text s : Bytes) (ss : List Bytes)
    → All NoDots (split_slash [] text)
    → All IsSegment (s ∷ ss)
    → join (text ∷ s ∷ ss) ≡ lead text ++ join_slash (levels text ++ (s ∷ ss))
unfolding join join_slash bytes_eq
join-segments [] s ss n a =
    ap clean_joined (drop_empties-segments (s ∷ ss) a) ∙ clean-join_slash s ss a
join-segments (c ∷ cs) s ss n a =
    ap (λ (ts : List Bytes). clean_joined ((c ∷ cs) ∷ ts)) (drop_empties-segments (s ∷ ss) a)
    ∙ clean-append c cs s ss n a

-- What a topic begins with, up to the device.
abbrev pub base_topic : Bytes → Bytes → Bytes
base_topic text device = lead text ++ join_slash (levels text ++ device ∷ [])

-- `path.Join` of a prefix, a device and two more segments.
pub join-topic :
    (text device word id : Bytes)
    → All NoDots (split_slash [] text)
    → All IsSegment (device ∷ word ∷ id ∷ [])
    → join (text ∷ device ∷ word ∷ id ∷ [])
      ≡ base_topic text device ++ (b'/' ∷ (word ++ (b'/' ∷ id)))
unfolding join_slash
join-topic text device word id n a =
    join-segments text device (word ∷ id ∷ []) n a
    ∙ ap (λ (rest : Bytes). lead text ++ rest)
        (join_slash-append (levels text) device word (id ∷ []))
    ∙ sym (
        append_assoc (lead text) (join_slash (levels text ++ device ∷ []))
          (b'/' ∷ (word ++ (b'/' ∷ id))))
