-- ===== src/Topics/Replies.antt =====
-- Where the replacement of "request" in a topic takes place.
use go_reverse_rpc.Base.{ℕ, ◌≡◌, ◌≢◌, none, [], ◌∷◌, ◌++◌, Bytes, ℕ_eq, arith, All}
use go_reverse_rpc.Topics.{strip_prefix, replace_first}

-- `word` occurs nowhere in the text.
abbrev pub Lacks : Bytes → Bytes → Type 0
Lacks word [] = Unit
Lacks word (c ∷ cs) = (strip_prefix word (c ∷ cs) ≡ none) × Lacks word cs

-- A byte that is not in a word.
abbrev pub Outside : ℕ → Bytes → Type 0
Outside b word = All (λ c. c ≢ b) word

-- A word without the separator is not found across it.
pub strip_prefix-separator :
    (b : ℕ) (word text rest : Bytes)
    → Outside b word
    → strip_prefix word text ≡ none
    → strip_prefix word (text ++ b ∷ rest) ≡ none
unfolding strip_prefix
strip_prefix-separator b [] text rest o e = cc
strip_prefix-separator b (w ∷ ws) [] rest o e = ground arith
strip_prefix-separator b (w ∷ ws) (c ∷ cs) rest o e =
    ground (arith, strip_prefix-separator b ws cs rest o.1)

-- The replacement passes over a text that lacks the word, and over the separator behind it.
pub replace_first-Lacks :
    (b : ℕ) (word new text rest : Bytes)
    → Outside b word
    → strip_prefix word (b ∷ rest) ≡ none
    → Lacks word text
    → replace_first word new (text ++ b ∷ rest) ≡ text ++ b ∷ replace_first word new rest
unfolding replace_first
replace_first-Lacks b word new [] rest o s l = ground (arith, s)
replace_first-Lacks b word new (c ∷ cs) rest o s l = ground (
  arith,
  strip_prefix-separator b word (c ∷ cs) rest o l.0,
  replace_first-Lacks b word new cs rest o s l.1,
)
