-- ===== src/Errors.antt =====
-- The values of Go's `error`: those that the packages of the program declare or make, and any
-- other by its text. `Result` is Go's pair of a value and an error.
use go_reverse_rpc.Base.{Bytes, lit, ◌++◌}

pub data Error : Type 0 where
  -- server.go
  no_reply too_frequently timeout : Error
  unhandled_method : Bytes → Error
  panic_in_method : Bytes → Bytes → Error
  -- compressor/compressor.go
  unknown_content_encoding : Error
  -- mqttpb/server.go, mqttjson/server.go
  retained_message : Error
  -- mqttpb/context.go
  request_not_proto : Error
  type_not_found : Bytes → Error
  -- mqttpb/rpc_client.go
  invalid_request_body message_type_not_match : Error
  -- io
  eof : Error
  -- `fmt.Errorf("text: %w", err)`
  wrapped : Bytes → Error → Error
  other : Bytes → Error

-- `err.Error()`
unfoldable pub message : Error → Bytes
message no_reply = lit "[RRPC] empty reply"
message too_frequently = lit "[RRPC] too frequently, try again later"
message timeout = lit "[RRPC] timeout"
message (unhandled_method m) = lit "Unhandled method: " ++ m
message (panic_in_method m i) = lit "panic in method " ++ (m ++ (lit " " ++ i))
message unknown_content_encoding = lit "[RRPC] uknown content encoding"
message retained_message = lit "[RRPC] reatain message is not allowed, please set retaind=false"
message request_not_proto = lit "[RRPC] request type is not protobuf message"
message (type_not_found t) = lit "[RRPC] type " ++ (t ++ lit " is not found")
message invalid_request_body = lit "[RRPC] invalid request body"
message message_type_not_match = lit "[RRPC] message type not match"
message eof = lit "EOF"
message (wrapped text e) = text ++ (lit ": " ++ message e)
message (other s) = s

pub data Result {ℓ} (A : Type ℓ) : Type ℓ where
  ok : A → Result A
  err : Error → Result A
