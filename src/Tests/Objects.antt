-- ===== src/Tests/Objects.antt =====
-- The JSON transport, over an encoding that keeps the documented round trips.
use go_reverse_rpc.Base.{
  ℕ, ℤ, pos, ◌≢◌, refl, ap, Option, none, some, List, [], ◌∷◌, Bytes, lit, bytes_eq, ℕ_eq, arith,
}
use go_reverse_rpc.Errors.{eof, Result, ok, err}
use go_reverse_rpc.Topics.{strip_prefix}
use go_reverse_rpc.Topics.Replies.{Lacks}
use go_reverse_rpc.Mqttpb.Server.Replies.{request_word, request_topic}
use go_reverse_rpc.Mqttpb.ClientCodec.{Propagator}
use go_reverse_rpc.Mqttjson.Messages.{Request, Response, empty_request, Json, Lawful}
use go_reverse_rpc.Mqttjson.Server.{RequestData}
use go_reverse_rpc.Mqttjson.ClientCodec.{ClientCodec}
use go_reverse_rpc.Tests.Wire.{Format, both, number, text, integer, optional, list}

abbrev Fields : Type 0
Fields = ℕ × (Bytes × (ℤ × Option Bytes))

abbrev fields : Format Fields
fields = both number (both text (both integer (optional text)))

abbrev encode : Response → Bytes
encode r = fields.put (r.id, (r.method, (r.status, r.content))) []

abbrev decode_fields : Fields → Response → Response
decode_fields (id, (method, (status, content))) old = record old {
  id = id;
  method = method;
  status = status;
  content = content;
}

abbrev RequestFields : Type 0
RequestFields = ℕ × (Bytes × (List (Bytes × Bytes) × Option Bytes))

abbrev request_fields : Format RequestFields
request_fields = both number (both text (both (list (both text text)) (optional text)))

abbrev encode_request : Request → Bytes
encode_request r = request_fields.put (r.id, (r.method, (r.metadata, r.params))) []

abbrev to_request : RequestFields → Request
to_request (id, (method, (metadata, params))) = record {
  id = id;
  method = method;
  metadata = metadata;
  params = params;
}

abbrev field : Option Bytes → Result Bytes
field (some (b ∷ text)) = ok text
field _ = err eof

abbrev pub json : Json
json = record {
  encode_request = λ r. ok (encode_request r);
  decode_request = λ bytes old. (to_request ((request_fields.get bytes).0), none);
  encode_response = λ r. ok (encode r);
  decode_response = λ bytes old. (decode_fields ((fields.get bytes).0) old, none);
  error_object = λ text. 34 ∷ text;
  message_field = field;
}

unfoldable pub json-Lawful : Lawful json
json-Lawful = record {
  IsText = λ text. Unit;
  IsJson = λ content. Unit;
  error_json = λ text t. tt;
  reads_error = λ text t. refl;
  requests = λ r params m t p j. (
    encode_request r,
    r.metadata,
    refl,
    ap (λ (p : RequestFields × Bytes). (to_request (p.0), none))
        (request_fields.back (r.id, (r.method, (r.metadata, r.params))) []),
    λ k. refl,
  );
  responses = λ r old content m n d j. (
    encode r,
    refl,
    ap (λ (p : Fields × Bytes). (decode_fields (p.0) old, none))
        (fields.back (r.id, (r.method, (r.status, r.content))) []),
  );
}

abbrev pub propagator : Propagator ℕ
propagator = record { inject = λ ctx metadata. metadata; extract = λ ctx metadata. ctx }

abbrev request : Request
request = record { id = 4; method = lit "add"; metadata = []; params = some (lit "1") }

abbrev arrived : RequestData
arrived = record { topic = request_topic (lit "dev") (lit "7"); request = request }

abbrev pub client : ClientCodec ℕ
client = record {
  ctx = none;
  request = empty_request;
  response = record { id = 0; method = []; status = pos 0; metadata = []; content = none };
  pending = (4, lit "add") ∷ [];
}

server_error : pos 500 ≢ pos 200
server_error e = ground arith

dev-Lacks : Lacks request_word (lit "dev")
unfolding strip_prefix ℕ_eq
dev-Lacks = (refl, (refl, (refl, tt)))

pub seven-Lacks : Lacks request_word (lit "7")
unfolding strip_prefix ℕ_eq
seven-Lacks = (refl, tt)
