-- ===== src/Tests/Echoes.antt =====
-- A call of a method that answers with its argument.
use go_reverse_rpc.Compressor.{input_of}
use go_reverse_rpc.Base.{
  ℕ, pos, ◌≡◌, ◌≢◌, refl, false, none, some, Option, [], ◌∷◌, Bytes, bytes_eq, ℕ_discrete, lit,
  arith, ℕ_eq,
}
use go_reverse_rpc.Base.Dict.{lookup, insert}
use go_reverse_rpc.Errors.{unhandled_method, message, Result, ok, err}
use go_reverse_rpc.Context.{
  Outcome, returned, panicked, new_request_context, ok_response, error_response, default_qos,
}
use go_reverse_rpc.Server.{Program, returns, replies, Server, new_server, register}
use go_reverse_rpc.Server.Call.{left, run, call}
use go_reverse_rpc.Server.Call.Answers.{answer}
use go_reverse_rpc.Compressor.Buffers.{Manager, write, write_moved}
use go_reverse_rpc.Mqttpb.Messages.{done, drop_empty}
use go_reverse_rpc.Mqttpb.Server.{
  Value, proto_message, RequestData, calls, receive, get_reply_topic,
}
use go_reverse_rpc.Mqttpb.ClientCodec.{
  next_request, proto, ClientCodec, write_request, read_response_header,
}
use go_reverse_rpc.Mqttpb.Codec.{
  marshal_request, compress_value, convert_encoding, unmarshal_request, open_request,
}
use go_reverse_rpc.Compressor.{compress, decompress}
use go_reverse_rpc.Base.Int.{ℤ_eq}
use go_reverse_rpc.Mqttpb.Service.{deliver, child_context, new_mqtt_context, bind_value}
use go_reverse_rpc.Mqttpb.Service.Served.{child, replies_of}
use go_reverse_rpc.Mqttpb.Service.RpcCall.{AnswersCall, rpc_call_error}
use go_reverse_rpc.Tests.Wire.{
  request_wire, request_wire-Faithful, response_wire, response_wire-Faithful,
}
use go_reverse_rpc.Tests.Packages.{
  packages, packages-Lossless, packages-EmptyInput, manager, manager-IsValid,
}
use go_reverse_rpc.Tests.Calls.{env, in_time}
use go_reverse_rpc.Tests.Messages.{request, transport, propagator, rpc_request, client}
use go_reverse_rpc.Base.Utf8.{IsUtf8, valid_utf8}
use go_reverse_rpc.Mqttpb.Messages.{IsRequest}
use go_reverse_rpc.Tests.Service.{quiet, bare, alone}

abbrev or_nil : Option Bytes → Bytes
or_nil none = []
or_nil (some bytes) = bytes

abbrev echo : Outcome (Result (Option Bytes)) → Program Value
echo (returned (ok bound)) =
    replies (some (ok_response (some (proto_message (lit "R") (done (or_nil bound))))))
      (λ sent. returns)
echo (returned (err e)) = replies (some (error_response (pos 400) e)) (λ sent. returns)
echo (panicked value) = returns

unfoldable pub echoing : Server Value ℕ
unfolding new_server register insert
echoing =
    register (lit "add")
      (record {
        method = λ ctx. echo (ctx.bind (proto_message (lit "T") (done [])));
        timeout = pos 0;
      })
      (new_server (lit "id") (pos 4) quiet [])

or_nil-xyz :
    (bound : Option Bytes)
    → drop_empty bound ≡ drop_empty (some (lit "xyz"))
    → or_nil bound ≡ lit "xyz"
or_nil-xyz none e = ground arith
or_nil-xyz (some []) e = ground arith
or_nil-xyz (some (b ∷ bs)) e = ground arith

pub echoing-AnswersCall :
    AnswersCall echoing env (lit "add") (lit "T") (lit "xyz") (lit "R") (lit "xyz")
unfolding echoing lookup bytes_eq ℕ_discrete
echoing-AnswersCall ctx bound m b e = rw m (rw b (rw (or_nil-xyz bound e) refl))

abbrev written : Result Bytes × ClientCodec ℕ × Manager
written =
    write_request packages propagator request_wire (λ bytes. none) rpc_request
      (proto (lit "T") (done (lit "xyz"))) client manager

abbrev pub or_empty : Result Bytes → Bytes
or_empty (ok bytes) = bytes
or_empty (err e) = []

abbrev topic : Bytes
topic = lit "dev/request/7"

abbrev sent : Bytes
sent = or_empty written.0

abbrev called : RequestData
called = record { topic = topic; request = record request { metadata = [] } }

written-sent : written ≡ (ok sent, written.1, written.2)
unfolding write_request bytes_eq ℕ_discrete marshal_request compress_value compress input_of ℤ_eq
    convert_encoding
written-sent = refl

received-called :
    receive packages request_wire response_wire
      (record { topic = topic; retained = false; payload = sent })
      transport
    ≡ calls called
unfolding receive write_request bytes_eq ℕ_discrete marshal_request compress_value compress input_of
    ℤ_eq convert_encoding unmarshal_request open_request write ℕ_eq write_moved decompress
received-called = refl

echoing-left :
    (run echoing env in_time (
      call echoing env
        (new_request_context (child packages request_wire response_wire propagator 0 called))
        0)).caller
    ≡ left
unfolding echoing run call new_request_context child_context new_mqtt_context lookup bytes_eq
    ℕ_discrete bind_value
echoing-left = refl

-- The same call when the server does not know the method.
bare_error :
    answer bare env (child packages request_wire response_wire propagator 0 called)
    ≡ some (error_response (pos 500) (unhandled_method (lit "add")))
unfolding bare child_context new_mqtt_context lookup bytes_eq ℕ_discrete
bare_error = refl

bare_over :
    (run bare env alone (
      call bare env
        (new_request_context (child packages request_wire response_wire propagator 0 called))
        0)).caller
    ≡ left
unfolding bare run call new_request_context child_context new_mqtt_context lookup bytes_eq
    ℕ_discrete
bare_over = refl

unhandled_text : message (unhandled_method (lit "add")) ≢ []
unfolding message
unhandled_text e = ground arith

client-IsRequest : IsRequest (next_request propagator client rpc_request (lit "T") (lit "xyz"))
unfolding next_request valid_utf8
client-IsRequest = record {
  id = omega arith;
  method = refl;
  encoding = omega arith;
  metadata = tt;
  body = refl;
}

unhandled-IsUtf8 : IsUtf8 (message (unhandled_method (lit "add")))
unfolding message valid_utf8
unhandled-IsUtf8 = refl

rpc_call_error_example :
    (reply : Bytes) × ((deliver packages request_wire response_wire called
        (replies_of packages request_wire response_wire propagator 0 bare env called alone 0)
        transport).outbox
      ≡ record {
        topic = get_reply_topic called;
        qos = default_qos;
        retained = false;
        payload = reply;
      }
        ∷ [])
    × ((read_response_header packages propagator response_wire (ok reply) written.1).0
        ≡ ok (record {
          service_method = lit "add";
          seq = 4;
          error = message (unhandled_method (lit "add"));
        }))
rpc_call_error_example =
    rpc_call_error packages request_wire response_wire propagator 0 packages-Lossless
      packages-EmptyInput request_wire-Faithful response_wire-Faithful bare env alone 0 rpc_request
      (lit "T") (lit "xyz") client written.1 manager written.2 transport topic sent called (pos 500)
      (unhandled_method (lit "add")) unhandled_text client-IsRequest unhandled-IsUtf8
      manager-IsValid manager-IsValid refl written-sent received-called bare_error
      (tt, (tt, (tt, (tt, (tt, (tt, tt)))))) bare_over
