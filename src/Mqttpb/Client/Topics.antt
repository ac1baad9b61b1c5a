-- ===== src/Mqttpb/Client/Topics.antt =====
-- The topics of a call, as the client and the server of mqttpb make them.
use go_reverse_rpc.Base.{
  ◌≡◌, ◌≢◌, refl, sym, ap, ◌∙◌, [], ◌∷◌, ◌++◌, Bytes, bytes_eq, lit, arith, All,
}
use go_reverse_rpc.Topics.{join, join_slash, drop_empties, split_slash}
use go_reverse_rpc.Topics.Paths.{NoDots, IsSegment, base_topic, join-topic}
use go_reverse_rpc.Topics.Replies.{Lacks}
use go_reverse_rpc.Mqttpb.Messages.{Request}
use go_reverse_rpc.Mqttpb.Server.{get_reply_topic}
use go_reverse_rpc.Mqttpb.Server.Replies.{
  request_word, response_word, get_reply_topic-response_topic,
}
use go_reverse_rpc.Mqttpb.Service.{subscribe_topic}
use go_reverse_rpc.Mqttpb.Client.{request_topic, response_topic}

pub request_word-IsSegment : IsSegment request_word
request_word-IsSegment = ((λ e. cc, λ e. cc), λ e. cc, omega arith)

pub response_word-IsSegment : IsSegment response_word
response_word-IsSegment = ((λ e. cc, λ e. cc), λ e. cc, omega arith)

plus-IsSegment : IsSegment (lit "+")
plus-IsSegment = ((λ e. cc, λ e. cc), λ e. cc, omega arith)

-- A slash inside the last element is a separator like any other.
join_last :
    (text device : Bytes)
    → device ≢ []
    → join (text ∷ device ∷ lit "request/+" ∷ [])
      ≡ join (text ∷ device ∷ request_word ∷ lit "+" ∷ [])
unfolding join join_slash drop_empties bytes_eq
join_last [] [] h = absurd (h refl)
join_last [] (d ∷ ds) h = refl
join_last (c ∷ cs) [] h = absurd (h refl)
join_last (c ∷ cs) (d ∷ ds) h = refl

-- For a prefix without `.` and `..` levels, and a device and an id that are one level each: the
-- server's filter, the client's request topic and its response topic have the same levels up to the
-- device, then "request" and a wildcard, "request" and the id, and "response" and the id.
pub topics_of_call :
    (prefix device id : Bytes)
    → All NoDots (split_slash [] prefix)
    → IsSegment device
    → IsSegment id
    → let base = base_topic prefix device in
      (subscribe_topic prefix device ≡ base ++ lit "/request/+")
      × (request_topic prefix device id ≡ base ++ (lit "/request/" ++ id))
      × (response_topic prefix device id ≡ base ++ (lit "/response/" ++ id))
unfolding subscribe_topic request_topic response_topic
topics_of_call prefix device id n d i = (
  join_last prefix device d.1
      ∙ join-topic prefix device request_word (lit "+") n
          (d, (request_word-IsSegment, (plus-IsSegment, tt))),
  join-topic prefix device request_word id n (d, (request_word-IsSegment, (i, tt))),
  join-topic prefix device response_word id n (d, (response_word-IsSegment, (i, tt))),
)

-- Let moreover "request" not occur in the levels up to the device. Then the reply to a request that
-- arrives on the client's request topic goes to the topic that the client subscribes to.
pub get_reply_topic-request_topic :
    (prefix device id : Bytes) (request : Request)
    → All NoDots (split_slash [] prefix)
    → IsSegment device
    → IsSegment id
    → Lacks request_word (base_topic prefix device)
    → get_reply_topic (record { topic = request_topic prefix device id; request = request })
      ≡ response_topic prefix device id
get_reply_topic-request_topic prefix device id request n d i l =
    let topics = topics_of_call prefix device id n d i in
    ap (λ (topic : Bytes). get_reply_topic (record { topic = topic; request = request })) topics.1
    ∙ get_reply_topic-response_topic (base_topic prefix device) id request l
    ∙ sym topics.2
