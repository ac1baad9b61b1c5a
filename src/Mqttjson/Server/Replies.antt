-- ===== src/Mqttjson/Server/Replies.antt =====
-- Topics of the JSON server's replies.
use go_reverse_rpc.Base.{ℕ, ◌≡◌, ◌∙◌, refl, ap, none, [], ◌∷◌, ◌++◌, Bytes, ℕ_eq, arith}
use go_reverse_rpc.Topics.{strip_prefix, replace_rest, replace_all}
use go_reverse_rpc.Topics.Replies.{Lacks, Outside, strip_prefix-separator}
use go_reverse_rpc.Mqttpb.Server.Replies.{
  request_word, response_word, request_topic, response_topic,
}
use go_reverse_rpc.Mqttjson.Messages.{Request}
use go_reverse_rpc.Mqttjson.Server.{reply_topic}

-- A text without the word stays as it is.
replace_rest-Lacks : (word new text : Bytes) → Lacks word text → replace_rest 0 word new text ≡ text
unfolding replace_rest
replace_rest-Lacks word new [] l = refl
replace_rest-Lacks word new (c ∷ cs) l = ground (arith, replace_rest-Lacks word new cs l.1)

-- The replacement passes over a text that lacks the word, and over the separator behind it.
replace_rest-separator :
    (b : ℕ) (word new text rest : Bytes)
    → Outside b word
    → strip_prefix word (b ∷ rest) ≡ none
    → Lacks word text
    → replace_rest 0 word new (text ++ b ∷ rest) ≡ text ++ b ∷ replace_rest 0 word new rest
unfolding replace_rest
replace_rest-separator b word new [] rest o s l = ground (arith, s)
replace_rest-separator b word new (c ∷ cs) rest o s l = ground (
  arith,
  strip_prefix-separator b word (c ∷ cs) rest o l.0,
  replace_rest-separator b word new cs rest o s l.1,
)

outside : Outside b'/' request_word
outside = omega arith

-- "request" and a slash behind it.
replace_rest-request :
    (id : Bytes)
    → Lacks request_word id
    → replace_rest 0 request_word response_word (request_word ++ (b'/' ∷ id))
      ≡ response_word ++ (b'/' ∷ id)
unfolding replace_rest strip_prefix ℕ_eq
replace_rest-request id l =
    ap (λ (rest : Bytes). response_word ++ (b'/' ∷ rest))
      (replace_rest-Lacks request_word response_word id l)

-- At a base and with an id in which "request" does not occur, the reply to a request goes to the
-- topic that its client subscribes to.
pub reply_topic-response_topic :
    (base id : Bytes) (request : Request)
    → Lacks request_word base
    → Lacks request_word id
    → reply_topic (record { topic = request_topic base id; request = request })
      ≡ response_topic base id
unfolding reply_topic replace_all strip_prefix ℕ_eq
reply_topic-response_topic base id request l k =
    replace_rest-separator b'/' request_word response_word base (request_word ++ (b'/' ∷ id))
      outside refl l
    ∙ ap (λ (rest : Bytes). base ++ (b'/' ∷ rest)) (replace_rest-request id k)
