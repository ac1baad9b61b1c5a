-- ===== src/Mqttpb/Messages.antt =====
-- The messages of mqttpb/base.proto, and what the code relies on of their generated Go code and of
-- the protobuf package.
use go_reverse_rpc.Base.{
  ℕ, ℤ, pos, ◌≡◌, ◌<◌, ◌^◌, subst, bytes_eq, Option, none, some, [], ◌∷◌, Bytes, All,
}
use go_reverse_rpc.Base.Int.{InInt32}
use go_reverse_rpc.Base.Utf8.{IsUtf8}
use go_reverse_rpc.Base.Dict.{Dict, lookup}
use go_reverse_rpc.Errors.{Error}

-- `google.protobuf.Any`; `none` is the nil slice.
pub record Any : Type 0 where
  pub type_url : Bytes
  pub value : Option Bytes

-- `enum ContentEncoding` is open: any 32-bit number may arrive.
abbrev pub encoding_plain : ℤ
encoding_plain = pos 0

abbrev pub encoding_gzip : ℤ
encoding_gzip = pos 1

abbrev pub encoding_deflate : ℤ
encoding_deflate = pos 2

abbrev pub encoding_brotli : ℤ
encoding_brotli = pos 3

pub record Request : Type 0 where
  pub id : ℕ
  pub method : Bytes
  pub encoding : ℤ
  pub metadata : Dict Bytes Bytes
  pub body : Option Any

pub record Response : Type 0 where
  pub id : ℕ
  pub status : ℤ
  pub error_message : Bytes
  pub encoding : ℤ
  pub metadata : Dict Bytes Bytes
  pub body : Option Any

abbrev pub empty_request : Request
empty_request = record { id = 0; method = []; encoding = pos 0; metadata = []; body = none }

abbrev pub empty_response : Response
empty_response = record {
  id = 0;
  status = pos 0;
  error_message = [];
  encoding = pos 0;
  metadata = [];
  body = none;
}

-- `proto.Marshal` and `proto.Unmarshal` at a message type: unmarshalling fills the message, also
-- with what it read before an error.
pub data Marshalled : Type 0 where
  done : Bytes → Marshalled
  failed : Error → Marshalled

pub record Wire (M : Type 0) : Type 0 where
  pub marshal : M → Marshalled
  pub unmarshal : Bytes → M × Option Error

-- An empty `bytes` field is not on the wire, and arrives as nil.
abbrev pub drop_empty : Option Bytes → Option Bytes
drop_empty none = none
drop_empty (some []) = none
drop_empty (some (b ∷ bs)) = some (b ∷ bs)

abbrev pub canonical_body : Option Any → Option Any
canonical_body none = none
canonical_body (some body) = some (record body { value = drop_empty body.value })

abbrev pub canonical_request : Request → Request
canonical_request req = record req { body = canonical_body req.body }

abbrev pub canonical_response : Response → Response
canonical_response res = record res { body = canonical_body res.body }

-- A `string` field holds text in UTF-8.
abbrev IsBody : Option Any → Type 0
IsBody none = Unit
IsBody (some body) = IsUtf8 body.type_url

abbrev IsMetadata : Dict Bytes Bytes → Type 0
IsMetadata metadata = All (λ entry. IsUtf8 entry.0 × IsUtf8 entry.1) metadata

-- The messages that `proto.Marshal` takes: their numbers are of the fields' Go types, and their
-- strings are text; with any other string it fails.
pub record IsRequest (m : Request) : Type 0 where
  pub id : m.id < 2 ^ 64
  pub method : IsUtf8 m.method
  pub encoding : InInt32 m.encoding
  pub metadata : IsMetadata m.metadata
  pub body : IsBody m.body

pub record IsResponse (m : Response) : Type 0 where
  pub id : m.id < 2 ^ 64
  pub status : InInt32 m.status
  pub error_message : IsUtf8 m.error_message
  pub encoding : InInt32 m.encoding
  pub metadata : IsMetadata m.metadata
  pub body : IsBody m.body

-- Two messages that are the same up to nil for no bytes, and up to the order of a map's entries.
pub record SameRequest (m m' : Request) : Type 0 where
  pub message : canonical_request m ≡ record (canonical_request m') { metadata = m.metadata }
  pub entries : (k : Bytes) → lookup k m.metadata ≡ lookup k m'.metadata

pub record SameResponse (m m' : Response) : Type 0 where
  pub message : canonical_response m ≡ record (canonical_response m') { metadata = m.metadata }
  pub entries : (k : Bytes) → lookup k m.metadata ≡ lookup k m'.metadata

-- The documented round trips of the protobuf package, at the messages that it takes. The entries of
-- a map have no order.
pub record FaithfulRequests (wire : Wire Request) : Type 0 where
  pub encoded : Request → Bytes
  pub marshals : (m : Request) → IsRequest m → wire.marshal m ≡ done (encoded m)
  pub unmarshals :
      (m : Request)
      → IsRequest m
      → (metadata : Dict Bytes Bytes) × (wire.unmarshal (encoded m)
          ≡ (record (canonical_request m) { metadata = metadata }, none))
        × ((k : Bytes) → lookup k metadata ≡ lookup k m.metadata)

pub record FaithfulResponses (wire : Wire Response) : Type 0 where
  pub encoded : Response → Bytes
  pub marshals : (m : Response) → IsResponse m → wire.marshal m ≡ done (encoded m)
  pub unmarshals :
      (m : Response)
      → IsResponse m
      → (metadata : Dict Bytes Bytes) × (wire.unmarshal (encoded m)
          ≡ (record (canonical_response m) { metadata = metadata }, none))
        × ((k : Bytes) → lookup k metadata ≡ lookup k m.metadata)

-- The value of a body is no string.
pub revalue-IsRequest :
    (m : Request) (body : Any) (value : Option Bytes)
    → m.body ≡ some body
    → IsRequest m
    → IsRequest (record m { body = some (record body { value = value }) })
revalue-IsRequest m body value e w = record {
  id = w.id;
  method = w.method;
  encoding = w.encoding;
  metadata = w.metadata;
  body = subst IsBody e w.body;
}

pub revalue-IsResponse :
    (m : Response) (body : Any) (value : Option Bytes)
    → m.body ≡ some body
    → IsResponse m
    → IsResponse (record m { body = some (record body { value = value }) })
revalue-IsResponse m body value e w = record {
  id = w.id;
  status = w.status;
  error_message = w.error_message;
  encoding = w.encoding;
  metadata = w.metadata;
  body = subst IsBody e w.body;
}
