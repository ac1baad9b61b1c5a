-- ===== src/Examples/Math/Topics.antt =====
-- examples/basic/: the topics of the server and the client.
use go_reverse_rpc.Base.{◌≡◌, ap, ◌∙◌, [], Bytes, bytes_eq, ℕ_eq, ℕ_discrete, lit, arith, All}
use go_reverse_rpc.Topics.{split_slash, strip_prefix, join_slash, drop_empties}
use go_reverse_rpc.Topics.Paths.{NoDots, IsSegment, base_topic}
use go_reverse_rpc.Topics.Replies.{Lacks}
use go_reverse_rpc.Mqttpb.Server.Replies.{request_word}
use go_reverse_rpc.Mqttjson.Server.{RequestData, reply_topic}
use go_reverse_rpc.Mqttjson.Client
use go_reverse_rpc.Mqttjson.Client.{create_rpc_client, new_client_codec}
use go_reverse_rpc.Mqttjson.Client.Calls.{reply_topic-request_topic}

-- The topics of `main`: the prefix is "math", and the device "server-01".
math-NoDots : All NoDots (split_slash [] (lit "math"))
unfolding split_slash ℕ_eq ℕ_discrete
math-NoDots = ((λ e. cc, λ e. cc), tt)

server-IsSegment : IsSegment (lit "server-01")
server-IsSegment = ((λ e. cc, λ e. cc), λ e. cc, omega arith)

base-Lacks : Lacks request_word (base_topic (lit "math") (lit "server-01"))
unfolding split_slash ℕ_eq ℕ_discrete strip_prefix join_slash drop_empties bytes_eq
base-Lacks = ground arith

-- The reply to a request that came on the client's topic.
pub reply_topic-math :
    (id : Bytes) (req : RequestData)
    → IsSegment id
    → Lacks request_word id
    → req.topic ≡ Client.request_topic (lit "math") (lit "server-01") id
    → reply_topic req ≡ Client.response_topic (lit "math") (lit "server-01") id
reply_topic-math id req i l e =
    ap (λ (topic : Bytes). reply_topic (record { topic = topic; request = req.request })) e
    ∙ reply_topic-request_topic (lit "math") (lit "server-01") id req.request math-NoDots
        server-IsSegment i base-Lacks l
