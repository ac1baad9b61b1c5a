-- ===== src/Tests/Topics.antt =====
-- The topics and the trace context of concrete calls.
use go_reverse_rpc.Base.{
  some, ◌≡◌, refl, [], ◌++◌, Bytes, lit, All, ℕ_eq, ℕ_discrete, bytes_eq, arith,
}
use go_reverse_rpc.Topics.{split_slash, strip_prefix, join_slash, drop_empties}
use go_reverse_rpc.Mqttjson.Messages
use go_reverse_rpc.Topics.Replies.{Lacks}
use go_reverse_rpc.Topics.Paths.{NoDots, IsSegment, base_topic}
use go_reverse_rpc.Mqttpb.Service.{subscribe_topic}
use go_reverse_rpc.Mqttpb.Server.Replies.{request_word}
use go_reverse_rpc.Mqttpb.Client.{request_topic, response_topic}
use go_reverse_rpc.Mqttpb.Client.Topics.{topics_of_call}

-- An absolute prefix with an empty level.
abbrev pub prefix : Bytes
prefix = lit "/a//b"

pub prefix-NoDots : All NoDots (split_slash [] prefix)
unfolding split_slash ℕ_eq ℕ_discrete
prefix-NoDots =
    ((λ e. cc, λ e. cc), ((λ e. cc, λ e. cc), ((λ e. cc, λ e. cc), ((λ e. cc, λ e. cc), tt))))

pub dev-IsSegment : IsSegment (lit "dev")
dev-IsSegment = ((λ e. cc, λ e. cc), λ e. cc, omega arith)

pub seven-IsSegment : IsSegment (lit "7")
seven-IsSegment = ((λ e. cc, λ e. cc), λ e. cc, omega arith)

pub base-Lacks : Lacks request_word (base_topic prefix (lit "dev"))
unfolding split_slash ℕ_eq ℕ_discrete strip_prefix join_slash drop_empties bytes_eq
base-Lacks = (refl, (refl, (refl, (refl, (refl, (refl, (refl, (refl, tt))))))))

topics_of_call_example :
    let base = base_topic prefix (lit "dev") in
    (subscribe_topic prefix (lit "dev") ≡ base ++ lit "/request/+")
    × (request_topic prefix (lit "dev") (lit "7") ≡ base ++ (lit "/request/" ++ lit "7"))
    × (response_topic prefix (lit "dev") (lit "7") ≡ base ++ (lit "/response/" ++ lit "7"))
topics_of_call_example =
    topics_of_call prefix (lit "dev") (lit "7") prefix-NoDots dev-IsSegment seven-IsSegment

abbrev json_request : Messages.Request
json_request = record { id = 4; method = lit "add"; metadata = []; params = some (lit "1") }
