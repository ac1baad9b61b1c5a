-- ===== src/Topics.antt =====
-- The Go string functions that make topics of one another: `strings.Replace`, `strings.ReplaceAll`
-- and `path.Join`.
pub mod Replies
pub mod Paths
use mathlib.Core.List.{reverse}
use go_reverse_rpc.Base.{
  ℕ, zero, suc, ◌-◌, Bool, true, false, Option, none, some, List, [], ◌∷◌, ◌++◌, Bytes, bytes_eq,
  ℕ_eq, lit, ◌==◌, if◌then◌else◌, length,
}

-- What follows `prefix` in a text that begins with it.
unfoldable pub strip_prefix : Bytes → Bytes → Option Bytes
strip_prefix [] text = some text
strip_prefix (p ∷ ps) [] = none
strip_prefix (p ∷ ps) (c ∷ cs) = if p == c then strip_prefix ps cs else none

-- `strings.Replace(text, old, new, 1)`, for `old` not empty.
unfoldable pub replace_first : Bytes → Bytes → Bytes → Bytes
replace_first old new [] = []
replace_first old new (c ∷ cs) = elim (strip_prefix old (c ∷ cs)) [
  | some rest ↦ new ++ rest
  | none ↦ c ∷ replace_first old new cs
]

-- `strings.ReplaceAll(text, old, new)`, for `old` not empty; the first argument counts the bytes of
-- a replaced occurrence that are still to be dropped.
unfoldable pub replace_rest : ℕ → Bytes → Bytes → Bytes → Bytes
replace_rest skip old new [] = []
replace_rest (suc skip) old new (c ∷ cs) = replace_rest skip old new cs
replace_rest zero old new (c ∷ cs) =
    let replaced = new ++ replace_rest (length old - 1) old new cs in
    let kept = c ∷ replace_rest zero old new cs in
    elim (strip_prefix old (c ∷ cs)) [ some rest ↦ replaced | none ↦ kept ]

unfoldable pub replace_all : Bytes → Bytes → Bytes → Bytes
unfolding replace_rest
replace_all old new text = replace_rest 0 old new text

-- A text at its slashes: the current segment is collected in front, reversed.
unfoldable pub split_slash : Bytes → Bytes → List Bytes
split_slash segment [] = reverse segment ∷ []
split_slash segment (c ∷ cs) =
    if c == b'/' then reverse segment ∷ split_slash [] cs else split_slash (c ∷ segment) cs

-- `..` drops the segment before it, if that is no `..`; at a root there is nothing to drop.
unfoldable pub clean_dots : Bool → List Bytes → List Bytes
clean_dots true [] = []
clean_dots false [] = lit ".." ∷ []
clean_dots rooted (s ∷ stack) = if s == lit ".." then lit ".." ∷ s ∷ stack else stack

-- One segment of a path, onto the segments before it, the last in front.
unfoldable pub clean_segment : Bool → List Bytes → Bytes → List Bytes
clean_segment rooted stack segment =
    if segment == []
    then stack
    else if segment == lit "."
    then stack
    else if segment == lit ".."
    then clean_dots rooted stack
    else segment ∷ stack

unfoldable pub join_slash : List Bytes → Bytes
join_slash [] = []
join_slash (s ∷ []) = s
join_slash (s ∷ t ∷ ts) = s ++ (b'/' ∷ join_slash (t ∷ ts))

unfoldable pub clean_segments : Bool → List Bytes → List Bytes → List Bytes
unfolding clean_segment clean_dots
clean_segments rooted stack [] = reverse stack
clean_segments rooted stack (s ∷ ss) = clean_segments rooted (clean_segment rooted stack s) ss

abbrev is_rooted : Bytes → Bool
is_rooted [] = false
is_rooted (c ∷ cs) = c == b'/'

abbrev or_dot : Bytes → Bytes
or_dot [] = lit "."
or_dot (c ∷ cs) = c ∷ cs

-- `path.Clean(text)`
unfoldable pub clean : Bytes → Bytes
unfolding clean_segments split_slash join_slash
clean text =
    let body = join_slash (clean_segments (is_rooted text) [] (split_slash [] text)) in
    if is_rooted text then b'/' ∷ body else or_dot body

unfoldable pub drop_empties : List Bytes → List Bytes
drop_empties [] = []
drop_empties (s ∷ ss) = if s == [] then drop_empties ss else s ∷ drop_empties ss

abbrev clean_joined : List Bytes → Bytes
clean_joined [] = []
clean_joined (s ∷ ss) = clean (join_slash (s ∷ ss))

-- `path.Join(elements...)`
unfoldable pub join : List Bytes → Bytes
unfolding clean drop_empties
join elements = clean_joined (drop_empties elements)
