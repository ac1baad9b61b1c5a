-- ===== src/Tests/WholeCalls.antt =====
-- A whole call to a server that answers with the argument.
use go_reverse_rpc.Compressor.{input_of}
use go_reverse_rpc.Base.Utf8.{IsUtf8, valid_utf8}
use go_reverse_rpc.Mqttpb.Messages.{IsRequest}
use go_reverse_rpc.Base.{
  ℕ, suc, ◌≡◌, refl, false, none, some, Option, [], ◌∷◌, Bytes, bytes_eq, ℕ_discrete, lit, arith,
  ℕ_eq,
}
use go_reverse_rpc.Base.Dict.{lookup}
use go_reverse_rpc.Base.Int.{ℤ_eq}
use go_reverse_rpc.Errors.{Error, Result, ok}
use go_reverse_rpc.Context.{new_request_context, default_qos}
use go_reverse_rpc.Server.Call.{left, run, call}
use go_reverse_rpc.Compressor.{compress, decompress}
use go_reverse_rpc.Compressor.Buffers.{Manager, write_moved}
use go_reverse_rpc.Compressor.Buffers
use go_reverse_rpc.Mqttpb.Messages.{done, drop_empty, encoding_gzip}
use go_reverse_rpc.Mqttpb.Codec.{
  marshal_request, compress_value, convert_encoding, unmarshal_request, open_request,
}
use go_reverse_rpc.Mqttpb.Server.{RequestData, calls, receive}
use go_reverse_rpc.Mqttpb.ClientCodec.{
  next_request, proto, ClientCodec, prepare, write_request, read_response_header,
  read_response_body,
}
use go_reverse_rpc.Mqttpb.Conn.{Conn, write, new_conn}
use go_reverse_rpc.Mqttpb.Client
use go_reverse_rpc.Mqttpb.Client.{with_encoding, apply_call_options, create_rpc_client, call_done}
use go_reverse_rpc.Mqttpb.Service.{deliver, child_context, new_mqtt_context, bind_value}
use go_reverse_rpc.Mqttpb.Service.Served.{child, replies_of}
use go_reverse_rpc.Mqttpb.WholeCall.{arriving, whole_call}
use go_reverse_rpc.Mqttpb.Conn.Whole.{ReadsWhole}
use go_reverse_rpc.Tests.Wire.{
  request_wire, request_wire-Faithful, response_wire, response_wire-Faithful,
}
use go_reverse_rpc.Tests.Packages.{
  packages, packages-Lossless, packages-EmptyInput, manager, manager-IsValid,
}
use go_reverse_rpc.Tests.Calls.{env, in_time, in_time-Fits}
use go_reverse_rpc.Tests.Messages.{request, transport, propagator, rpc_request, client}
use go_reverse_rpc.Tests.Echoes.{or_empty, echoing, echoing-AnswersCall}
use go_reverse_rpc.Tests.Topics.{prefix, prefix-NoDots, dev-IsSegment, seven-IsSegment, base-Lacks}

-- What `Client.Call` sets up.
abbrev made : Conn × ClientCodec ℕ × Option Error
made =
    Client.call prefix 5 (lit "dev") (with_encoding encoding_gzip ∷ []) (lit "7") client
      (call_done none)

abbrev wrote : Result Bytes × ClientCodec ℕ × Manager
wrote =
    write_request packages propagator request_wire (λ bytes. none) rpc_request
      (proto (lit "T") (done (lit "xyz"))) made.1 manager

abbrev payload : Bytes
payload = or_empty wrote.0

abbrev arrived : RequestData
arrived = record {
  topic = Client.request_topic prefix (lit "dev") (lit "7");
  request = record request { metadata = [] };
}

wrote-payload : wrote ≡ (ok payload, wrote.1, wrote.2)
unfolding write_request bytes_eq ℕ_discrete marshal_request compress_value compress input_of ℤ_eq
    convert_encoding Client.call create_rpc_client with_encoding apply_call_options prepare
wrote-payload = refl

received-arrived :
    receive packages request_wire response_wire (arriving (write payload made.0)) transport
    ≡ calls arrived
unfolding receive write_request bytes_eq ℕ_discrete marshal_request compress_value compress input_of
    ℤ_eq convert_encoding unmarshal_request open_request Buffers.write ℕ_eq write_moved decompress
    Client.call create_rpc_client with_encoding apply_call_options prepare write new_conn
received-arrived = refl

arrived-left :
    (run echoing env in_time (
      call echoing env
        (new_request_context (child packages request_wire response_wire propagator 0 arrived))
        0)).caller
    ≡ left
unfolding echoing run call new_request_context child_context new_mqtt_context lookup bytes_eq
    ℕ_discrete bind_value
arrived-left = refl

made-IsRequest : IsRequest (next_request propagator made.1 rpc_request (lit "T") (lit "xyz"))
unfolding next_request valid_utf8 Client.call create_rpc_client with_encoding apply_call_options
    prepare
made-IsRequest = record {
  id = omega arith;
  method = refl;
  encoding = omega arith;
  metadata = tt;
  body = refl;
}

result-IsUtf8 : IsUtf8 (lit "R")
unfolding valid_utf8
result-IsUtf8 = refl

whole_call_example :
    (reply : Bytes) × (read : Option Bytes) × ((deliver packages request_wire response_wire arrived
        (replies_of packages request_wire response_wire propagator 0 echoing env arrived in_time 0)
        transport).outbox
      ≡ record {
        topic = made.0.response_topic;
        qos = default_qos;
        retained = false;
        payload = reply;
      }
        ∷ [])
    × ReadsWhole made.0 suc reply
    × (let (header, c₂) =
          read_response_header packages propagator response_wire (ok reply) wrote.1 in
        (header ≡ ok (record { service_method = lit "add"; seq = 4; error = [] }))
        × (read_response_body (proto (lit "R") (done [])) c₂ ≡ ok read)
        × (drop_empty read ≡ drop_empty (some (lit "xyz"))))
whole_call_example =
    whole_call packages request_wire response_wire propagator 0 packages-Lossless
      packages-EmptyInput request_wire-Faithful response_wire-Faithful echoing env in_time 0
      rpc_request (lit "T") (lit "xyz") manager wrote.2 transport payload arrived prefix (lit "dev")
      (lit "7") 5 (with_encoding encoding_gzip ∷ []) client wrote.1 (call_done none) (lit "R")
      (lit "xyz") suc prefix-NoDots dev-IsSegment seven-IsSegment base-Lacks (λ j. omega arith)
      made-IsRequest result-IsUtf8 manager-IsValid manager-IsValid refl wrote-payload
      received-arrived echoing-AnswersCall in_time-Fits arrived-left
