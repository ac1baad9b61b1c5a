-- ===== src/Mqttjson/Messages.antt =====
-- mqttjson/common.go: the messages, and what the code relies on of encoding/json.
use go_reverse_rpc.Base.{ℕ, ℤ, ◌≡◌, Option, none, some, [], Bytes, bytes_eq, All}
use go_reverse_rpc.Base.Dict.{Dict, lookup}
use go_reverse_rpc.Errors.{Error, Result, ok}

-- `none` is the nil `json.RawMessage`.
pub record Request : Type 0 where
  pub id : ℕ
  pub method : Bytes
  pub metadata : Dict Bytes Bytes
  pub params : Option Bytes

pub record Response : Type 0 where
  pub id : ℕ
  pub method : Bytes
  pub status : ℤ
  pub metadata : Dict Bytes Bytes
  pub content : Option Bytes

abbrev pub empty_request : Request
empty_request = record { id = 0; method = []; metadata = []; params = none }

-- encoding/json at the types of the program. A message is decoded over the one that was there
-- before. `error_object` marshals the map with the one key "message"; `message_field` unmarshals
-- an object and prints its "message" by "%s".
pub record Json : Type 0 where
  pub encode_request : Request → Result Bytes
  pub decode_request : Bytes → Request → Request × Option Error
  pub encode_response : Response → Result Bytes
  pub decode_response : Bytes → Response → Response × Option Error
  pub error_object : Bytes → Bytes
  pub message_field : Option Bytes → Result Bytes

-- The documented round trips of encoding/json, for text in UTF-8 and for data that is JSON without
-- needless space. An empty map has no field in the object, so decoding leaves the map that was
-- there. The entries of a map have no order.
pub record Lawful (json : Json) : Type 1 where
  pub IsText : Bytes → Type 0
  pub IsJson : Bytes → Type 0
  pub error_json : (text : Bytes) → IsText text → IsJson (json.error_object text)
  pub reads_error :
      (text : Bytes) → IsText text → json.message_field (some (json.error_object text)) ≡ ok text
  pub requests :
      (r : Request) (params : Bytes)
      → IsText r.method
      → All (λ entry. IsText entry.0 × IsText entry.1) r.metadata
      → r.params ≡ some params
      → IsJson params
      → (bytes : Bytes) × (metadata : Dict Bytes Bytes) × (json.encode_request r ≡ ok bytes)
        × (json.decode_request bytes empty_request ≡ (record r { metadata = metadata }, none))
        × ((k : Bytes) → lookup k metadata ≡ lookup k r.metadata)
  pub responses :
      (r old : Response) (content : Bytes)
      → IsText r.method
      → r.metadata ≡ []
      → r.content ≡ some content
      → IsJson content
      → (bytes : Bytes) × (json.encode_response r ≡ ok bytes)
        × (json.decode_response bytes old ≡ (record r { metadata = old.metadata }, none))
