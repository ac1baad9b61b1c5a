-- ===== src/Tests/Messages.antt =====
-- The protobuf codecs, and the replies and calls that use them.
use go_reverse_rpc.Base.{
  arith, ℕ, pos, ◌≡◌, ◌≢◌, refl, none, some, [], ◌∷◌, ◌++◌, Bytes, lit, bytes_eq, ℕ_eq,
}
use go_reverse_rpc.Base.Utf8.{valid_utf8}
use go_reverse_rpc.Errors.{ok}
use go_reverse_rpc.Topics.{strip_prefix}
use go_reverse_rpc.Topics.Replies.{Lacks}
use go_reverse_rpc.Compressor.Buffers.{Manager}
use go_reverse_rpc.Compressor.Writes.{IsValid}
use go_reverse_rpc.Mqttpb.Messages.{
  SameRequest, SameResponse, IsRequest, IsResponse, empty_response, Request, Response,
  encoding_gzip, encoding_brotli, done, empty_request,
}
use go_reverse_rpc.Mqttpb.Codec.{
  marshal_request, marshal_response, unmarshal_request, unmarshal_response,
}
use go_reverse_rpc.Mqttpb.Codec.RoundTrip.{unmarshal-marshal_request, unmarshal-marshal_response}
use go_reverse_rpc.Mqttpb.Server.{RequestData, Transport, get_reply_topic}
use go_reverse_rpc.Mqttpb.Server.Replies.{
  request_word, request_topic, response_topic, get_reply_topic_ne,
}
use go_reverse_rpc.Mqttpb.ClientCodec.{RpcRequest, Propagator, Argument, proto, ClientCodec}
use go_reverse_rpc.Tests.Wire.{
  request_wire, request_wire-Faithful, response_wire, response_wire-Faithful,
}
use go_reverse_rpc.Tests.Packages.{
  packages, packages-Lossless, packages-EmptyInput, manager, manager-IsValid,
}

abbrev pub request : Request
request = record {
  id = 4;
  method = lit "add";
  encoding = encoding_gzip;
  metadata = (lit "k", lit "v") ∷ [];
  body = some (record { type_url = lit "T"; value = some (lit "xyz") });
}

abbrev response : Response
response = record {
  id = 4;
  status = pos 200;
  error_message = [];
  encoding = encoding_brotli;
  metadata = [];
  body = some (record { type_url = lit "T"; value = some (lit "xyz") });
}

request-IsRequest : IsRequest request
unfolding valid_utf8
request-IsRequest = record {
  id = omega arith;
  method = refl;
  encoding = omega arith;
  metadata = ((refl, refl), tt);
  body = refl;
}

response-IsResponse : IsResponse response
unfolding valid_utf8
response-IsResponse = record {
  id = omega arith;
  status = omega arith;
  error_message = refl;
  encoding = omega arith;
  metadata = tt;
  body = refl;
}

unmarshal-marshal_request_example :
    (bytes : Bytes) × (st' : Manager) × (req' : Request) × (marshal_request packages request_wire
        request manager
      ≡ (ok bytes, st'))
    × (unmarshal_request packages request_wire bytes ≡ (req', none))
    × SameRequest req' request
    × IsValid st'
unmarshal-marshal_request_example =
    unmarshal-marshal_request packages packages-Lossless packages-EmptyInput request_wire request
      manager request_wire-Faithful request-IsRequest manager-IsValid

unmarshal-marshal_response_example :
    (bytes : Bytes) × (st' : Manager) × (res' : Response) × (marshal_response packages response_wire
        response manager
      ≡ (ok bytes, st'))
    × (unmarshal_response packages response_wire bytes ≡ (res', none))
    × SameResponse res' response
    × IsValid st'
unmarshal-marshal_response_example =
    unmarshal-marshal_response packages packages-Lossless packages-EmptyInput response_wire response
      manager response_wire-Faithful response-IsResponse manager-IsValid

abbrev pub arrived : RequestData
arrived = record { topic = request_topic (lit "dev") (lit "7"); request = request }

abbrev pub transport : Transport
transport = record { manager = manager; outbox = [] }

pub dev-Lacks : Lacks request_word (lit "dev")
unfolding strip_prefix ℕ_eq
dev-Lacks = (refl, (refl, (refl, tt)))

get_reply_topic_ne_example :
    let base = lit "dev" ++ (b'/' ∷ (request_word ++ lit "s")) in
    get_reply_topic (record { topic = request_topic base (lit "7"); request = request })
    ≢ response_topic base (lit "7")
get_reply_topic_ne_example = get_reply_topic_ne (lit "dev") (lit "s") (lit "7") request dev-Lacks

-- Trace contexts that put nothing into the metadata.
abbrev pub propagator : Propagator ℕ
propagator = record { inject = λ ctx metadata. metadata; extract = λ ctx metadata. ctx }

abbrev pub rpc_request : RpcRequest
rpc_request = record { service_method = lit "add"; seq = 4 }

abbrev pub client : ClientCodec ℕ
client = record {
  encoding = encoding_gzip;
  ctx = none;
  request = empty_request;
  response = empty_response;
  pending = (3, lit "other") ∷ [];
}

abbrev argument : Argument
argument = proto (lit "T") (done (lit "xyz"))

-- The response to the call, with an error, as it is on the wire.
abbrev failed_response : Response
failed_response = record {
  id = 4;
  status = pos 500;
  error_message = lit "bad";
  encoding = encoding_gzip;
  metadata = [];
  body = none;
}

abbrev failed_tail : Bytes
failed_tail = 500 ∷ 4 ∷ 3 ∷ (lit "bad" ++ (0 ∷ 1 ∷ 0 ∷ 0 ∷ []))
