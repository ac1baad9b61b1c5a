-- ===== src/Mqttpb/Server/Replies.antt =====
-- Replies of the protobuf server, as the client that waits for them sees them.
use go_reverse_rpc.Base.Utf8.{nil-IsUtf8, IsUtf8}
use mathlib.Core.List.{append_assoc, append_cancel_left}
use go_reverse_rpc.Base.{
  ◌^◌, ◌<◌, sym, ℕ_eq, ℤ, ◌≡◌, ◌≢◌, refl, ap, ◌∙◌, true, false, none, some, [], ◌∷◌, ◌++◌, Bytes,
  lit, arith,
}
use go_reverse_rpc.Base.Int.{int32-InInt32, InInt32, int32}
use go_reverse_rpc.Errors.{Error, message}
use go_reverse_rpc.Context.{returned, error_response, ok_response, status_ok, default_qos}
use go_reverse_rpc.Topics.{replace_first, strip_prefix}
use go_reverse_rpc.Topics.Replies.{Lacks, Outside, replace_first-Lacks}
use go_reverse_rpc.Compressor.{Algorithms}
use go_reverse_rpc.Compressor.RoundTrip.{AllLossless}
use go_reverse_rpc.Compressor.Writes.{IsValid}
use go_reverse_rpc.Mqttpb.Messages.{
  SameResponse, FaithfulResponses, IsResponse, Request, Response, Wire, done,
}
use go_reverse_rpc.Mqttpb.Codec.{unmarshal_response}
use go_reverse_rpc.Mqttpb.Codec.RoundTrip.{EmptyInput, unmarshal-marshal_response}
use go_reverse_rpc.Mqttpb.Server.{
  proto_message, RequestData, ResponseData, Transport, get_reply_topic, get_response,
  make_ok_response, make_err_response, publish, reply, reply_pointer, context_reply,
}

abbrev pub request_word : Bytes
request_word = lit "request"

abbrev pub response_word : Bytes
response_word = lit "response"

-- The topic of a request, or of a response, under a base and with an id, as the clients join them.
abbrev pub request_topic : Bytes → Bytes → Bytes
request_topic base id = base ++ (b'/' ∷ (request_word ++ (b'/' ∷ id)))

abbrev pub response_topic : Bytes → Bytes → Bytes
response_topic base id = base ++ (b'/' ∷ (response_word ++ (b'/' ∷ id)))

outside : Outside b'/' request_word
outside = omega arith

-- Past a start without the word and a slash, the word itself is replaced.
replace_at_slash :
    (start rest : Bytes)
    → Lacks request_word start
    → replace_first request_word response_word (start ++ (b'/' ∷ (request_word ++ rest)))
      ≡ start ++ (b'/' ∷ (response_word ++ rest))
unfolding replace_first strip_prefix ℕ_eq
replace_at_slash start rest l =
    replace_first-Lacks b'/' request_word response_word start (request_word ++ rest) outside refl l

-- At a base in which "request" does not occur, the reply to a request goes to the topic that its
-- client subscribes to.
pub get_reply_topic-response_topic :
    (base id : Bytes) (request : Request)
    → Lacks request_word base
    → get_reply_topic (record { topic = request_topic base id; request = request })
      ≡ response_topic base id
unfolding get_reply_topic
get_reply_topic-response_topic base id request l = replace_at_slash base (b'/' ∷ id) l

words_differ : (xs ys : Bytes) → b'/' ∷ (response_word ++ xs) ≢ b'/' ∷ (request_word ++ ys)
words_differ xs ys e = ground arith

-- At a base with a segment that begins with "request", after a part in which it does not occur, the
-- reply goes to another topic than the one that the client subscribes to.
pub get_reply_topic_ne :
    (start rest id : Bytes) (request : Request)
    → Lacks request_word start
    → let base = start ++ (b'/' ∷ (request_word ++ rest)) in
      get_reply_topic (record { topic = request_topic base id; request = request })
      ≢ response_topic base id
unfolding get_reply_topic
get_reply_topic_ne start rest id request l e =
    let tail = rest ++ (b'/' ∷ (request_word ++ (b'/' ∷ id))) in
    let there =
      ap (replace_first request_word response_word)
        (append_assoc start (b'/' ∷ (request_word ++ rest)) (b'/' ∷ (request_word ++ (b'/' ∷ id))))
      ∙ replace_at_slash start tail l in
    let same = append_cancel_left start _ _ (
      sym there
      ∙ e
      ∙ append_assoc start (b'/' ∷ (request_word ++ rest))
          (b'/' ∷ (response_word ++ (b'/' ∷ id)))) in
    words_differ _ _ same

module _ (algorithms : Algorithms) (requests : Wire Request) (responses : Wire Response)
    (lossless : AllLossless algorithms) (reject : EmptyInput algorithms)
    (faithful : FaithfulResponses responses) where
  -- What a client makes of the one message that a reply publishes.
  abbrev pub Delivers : RequestData → Transport → Transport → Response → Type 0
  Delivers req t t' expected =
      (payload : Bytes) × (received : Response) × (t'.outbox
        ≡ record {
          topic = get_reply_topic req;
          qos = default_qos;
          retained = false;
          payload = payload;
        }
          ∷ t.outbox)
      × (unmarshal_response algorithms responses payload ≡ (received, none))
      × SameResponse received expected
      × IsValid t'.manager

  reply-Delivers :
      (req : RequestData) (res : ResponseData) (t : Transport)
      → res.topic ≡ get_reply_topic req
      → IsResponse res.response
      → IsValid t.manager
      → Delivers req t (reply algorithms requests responses res t) res.response
  unfolding reply publish
  reply-Delivers req res t e w v =
      let (payload, manager, received, sent, got, same, valid) =
        unmarshal-marshal_response algorithms lossless reject responses res.response t.manager
          faithful w v in
      (payload, received, ground (arith, sent), got, same, ground (arith, sent, valid))

  -- With compression packages and a wire format that keep their contracts, a valid pool, and a
  -- number and an encoding of the Go types: `Reply` of an error whose text is in UTF-8 publishes
  -- one message on the reply topic. The client's codec reads from it the request's id and encoding,
  -- the low 32 bits of the status, and the error's text.
  pub context_reply_error :
      (req : RequestData) (status : ℤ) (e : Error) (t : Transport)
      → req.request.id < 2 ^ 64
      → InInt32 req.request.encoding
      → IsUtf8 (message e)
      → IsValid t.manager
      → let (t', answer) =
          context_reply algorithms requests responses req (some (error_response status e)) t in
        (answer ≡ returned true)
        × Delivers req t t' (record {
          id = req.request.id;
          status = int32 status;
          error_message = message e;
          encoding = req.request.encoding;
          metadata = [];
          body = none;
        })
  unfolding context_reply make_err_response get_response
  context_reply_error req status e t i n u v =
      let w : IsResponse (make_err_response req status e).response = record {
        id = i;
        status = int32-InInt32 status;
        error_message = u;
        encoding = n;
        metadata = tt;
        body = tt;
      } in
      (refl, reply-Delivers req _ t refl w v)

  -- With compression packages and a wire format that keep their contracts, a valid pool, and a
  -- number and an encoding of the Go types: `Reply` of a protobuf message that can be marshalled
  -- publishes one message on the reply topic. The client's codec reads from it the request's id and
  -- encoding, status 200, no error text, and the message's type and bytes, up to nil for no bytes.
  pub context_reply_ok :
      (req : RequestData) (type_name bytes : Bytes) (t : Transport)
      → req.request.id < 2 ^ 64
      → InInt32 req.request.encoding
      → IsUtf8 type_name
      → IsValid t.manager
      → let (t', answer) =
          context_reply algorithms requests responses req
            (some (ok_response (some (proto_message type_name (done bytes)))))
            t in
        (answer ≡ returned true)
        × Delivers req t t' (record {
          id = req.request.id;
          status = status_ok;
          error_message = [];
          encoding = req.request.encoding;
          metadata = [];
          body = some (record { type_url = type_name; value = some bytes });
        })
  unfolding context_reply make_ok_response get_response reply_pointer
  context_reply_ok req type_name bytes t i n u v =
      let w : IsResponse (record {
        id = req.request.id;
        status = status_ok;
        error_message = [];
        encoding = req.request.encoding;
        metadata = [];
        body = some (record { type_url = type_name; value = some bytes });
      }) =
        record {
          id = i;
          status = omega arith;
          error_message = nil-IsUtf8;
          encoding = n;
          metadata = tt;
          body = u;
        } in
      (refl, reply-Delivers req _ t refl w v)
