-- ===== src/Tests/Service.antt =====
-- Requests that the protobuf server serves, from the client's message to the reply's.
use go_reverse_rpc.Base.{
  ℕ, pos, ◌+◌, ◌==◌, if◌then◌else◌, ℕ_eq, ◌≤◌, ◌≡◌, refl, none, some, List, [], ◌∷◌, bytes_eq,
  ℕ_discrete, lit, length,
}
use go_reverse_rpc.Base.Dict.{lookup, insert}
use go_reverse_rpc.Errors.{other}
use go_reverse_rpc.Context.{ok_response, error_response}
use go_reverse_rpc.Server.{returns, replies, Telemetry, Server, new_server, register}
use go_reverse_rpc.Server.Call.{Move, caller_moves}
use go_reverse_rpc.Mqttpb.Messages.{done, encoding_gzip}
use go_reverse_rpc.Mqttpb.Server.{Value, proto_message}
use go_reverse_rpc.Mqttpb.Service.{deliver}
use go_reverse_rpc.Mqttpb.Service.Served.{replies_of, served_at_most_once}
use go_reverse_rpc.Tests.Wire.{request_wire, response_wire}
use go_reverse_rpc.Tests.Packages.{packages, manager}
use go_reverse_rpc.Tests.Calls.{env, in_time}
use go_reverse_rpc.Tests.Messages.{arrived, transport, propagator, rpc_request, client}
use go_reverse_rpc.Mqttpb.ClientCodec.{Propagator, proto, write_request}
use go_reverse_rpc.Mqttpb.Client.Codecs.{call_with, stale_metadata, write_request-call}
use go_reverse_rpc.Mqttpb.Client
use go_reverse_rpc.Mqttpb.Client.{call_done, get_codec}

abbrev pub quiet : Telemetry ℕ
quiet = record {
  start_span = λ name w. w + 1;
  end_span = λ w. w + 10;
  record_request = λ duration name status error w. w + 100;
}

-- A server whose one method gives back a message and then, too late, an error.
adder : Server Value ℕ
unfolding new_server register insert
adder =
    register (lit "add")
      (record {
        method = λ child.
            replies (some (ok_response (some (proto_message (lit "T") (done (lit "xyz"))))))
              (λ sent.
                replies (some (error_response (pos 500) (other (lit "late")))) (λ again. returns));
        timeout = pos 0;
      })
      (new_server (lit "id") (pos 4) quiet [])

-- A server without methods.
unfoldable pub bare : Server Value ℕ
unfolding new_server
bare = new_server (lit "id") (pos 4) quiet []

served_at_most_once_example :
    length
      (deliver packages request_wire response_wire arrived
        (replies_of packages request_wire response_wire propagator 0 adder env arrived in_time 0)
        transport).outbox
    ≤ length transport.outbox + 1
served_at_most_once_example =
    served_at_most_once packages request_wire response_wire propagator 0 adder env arrived in_time 0
      transport

-- The caller alone, until it has left.
abbrev pub alone : List Move
alone = caller_moves ∷ caller_moves ∷ caller_moves ∷ caller_moves ∷ caller_moves ∷ caller_moves ∷ []

-- A propagator that writes the trace's number.
abbrev writing : Propagator ℕ
writing = record {
  inject = λ ctx metadata. if ctx == 0 then metadata else insert (lit "trace") (ctx ∷ []) metadata;
  extract = λ ctx metadata. ctx;
}

writes-trace : lookup (lit "trace") (writing.inject 9 client.request.metadata) ≡ some (9 ∷ [])
unfolding lookup insert bytes_eq ℕ_discrete ℕ_eq
writes-trace = refl

stale_metadata_example :
    lookup
      (lit "trace")
      (call_with packages writing request_wire
        (λ bytes. none)
        0
        (pos 2)
        (record { service_method = lit "sub"; seq = 5 })
        (lit "T")
        []
        (call_with packages writing request_wire
          (λ bytes. none)
          9
          encoding_gzip
          rpc_request
          (lit "T")
          (lit "xyz")
          client
          manager)
        manager).request.metadata
    ≡ some (9 ∷ [])
unfolding ℕ_eq
stale_metadata_example =
    stale_metadata packages writing request_wire (λ bytes. none) 9 0 encoding_gzip (pos 2)
      rpc_request (record { service_method = lit "sub"; seq = 5 }) (lit "T") (lit "xyz") (lit "T")
      [] client manager manager (lit "trace") (9 ∷ []) writes-trace (λ metadata. refl)

-- A client that is made for encoding 1, and a codec that comes back to its pool.
write_request-call_example :
    (write_request packages writing request_wire
      (λ bytes. none)
      rpc_request
      (proto (lit "T") (done (lit "xyz")))
      (Client.call
        (lit "p")
        0
        (lit "dev")
        []
        (lit "7")
        (get_codec (record { topic_prefix = lit "p"; encoding = encoding_gzip }) (some client))
        (call_done none)).1
      manager).1.request.encoding
    ≡ pos 0
write_request-call_example =
    write_request-call packages writing request_wire (λ bytes. none)
      (record { topic_prefix = lit "p"; encoding = encoding_gzip }) 0 (lit "dev") [] (lit "7")
      (some client) (call_done none) rpc_request (lit "T") (lit "xyz") manager
