-- ===== src/Mqttpb/Service/Served.antt =====
-- A request that the protobuf server serves, up to what the client reads.
use go_reverse_rpc.Base.Utf8.{IsUtf8}
use go_reverse_rpc.Base.{
  ◌^◌, ◌<◌, ℤ, ◌+◌, ◌≤◌, ◌≡◌, refl, inl, inr, true, false, Option, none, some, List, [], ◌∷◌, Bytes,
  arith, All, length,
}
use go_reverse_rpc.Base.Int.{InInt32, int32}
use go_reverse_rpc.Errors.{Error, message}
use go_reverse_rpc.Context
use go_reverse_rpc.Context.{
  returned, ChildContext, new_request_context, get_response, error_response, ok_response, status_ok,
}
use go_reverse_rpc.Server.{Server}
use go_reverse_rpc.Server.Call.{left, Env, Move, run, call}
use go_reverse_rpc.Server.Call.Answers.{answer, Fits}
use go_reverse_rpc.Server.Call.AtMostOnce.{run_at_most_once}
use go_reverse_rpc.Server.Call.InTime.{Transmits, run_in_time}
use go_reverse_rpc.Compressor.{Algorithms}
use go_reverse_rpc.Compressor.RoundTrip.{AllLossless}
use go_reverse_rpc.Compressor.Writes.{IsValid}
use go_reverse_rpc.Mqttpb.Messages.{FaithfulResponses, Request, Response, Wire, done}
use go_reverse_rpc.Mqttpb.Codec.RoundTrip.{EmptyInput}
use go_reverse_rpc.Mqttpb.Server.{
  Value, proto_message, RequestData, Transport, make_ok_response, publish, reply, reply_pointer,
  context_reply,
}
use go_reverse_rpc.Mqttpb.Server.Replies.{Delivers, context_reply_error, context_reply_ok}
use go_reverse_rpc.Mqttpb.ClientCodec.{Propagator}
use go_reverse_rpc.Mqttpb.Service.{child_context, idle, deliver, new_mqtt_context}

module _ {C : Type 0} (algorithms : Algorithms) (requests : Wire Request)
    (responses : Wire Response) (propagator : Propagator C) (background : C) where
  -- What `MQTTContext.Reply` returns is the same on every transport.
  context_reply_same :
      (req : RequestData) (res : Option (Context.Response Value)) (t u : Transport)
      → (context_reply algorithms requests responses req res t).1
        ≡ (context_reply algorithms requests responses req res u).1
  unfolding context_reply make_ok_response reply_pointer
  context_reply_same req none t u = refl
  context_reply_same req (some res) t u = ground arith

  context_reply-outbox :
      (req : RequestData) (res : Option (Context.Response Value)) (t : Transport)
      → length (context_reply algorithms requests responses req res t).0.outbox
        ≤ length t.outbox + 1
  unfolding context_reply make_ok_response reply_pointer reply publish
  context_reply-outbox req none t = omega arith
  context_reply-outbox req (some res) t = ground arith

  abbrev pub child : RequestData → ChildContext Value
  child req =
      child_context algorithms requests responses (new_mqtt_context propagator background req)

  child-Transmits :
      (req : RequestData) (r : Context.Response Value)
      → (context_reply algorithms requests responses req (some r) idle).1 ≡ returned true
      → Transmits (child req) r
  unfolding child_context new_mqtt_context
  child-Transmits req r e = (true, e)

  deliver-one :
      (req : RequestData) (sent : List (Option (Context.Response Value)))
      (res : Option (Context.Response Value)) (t : Transport)
      → sent ≡ res ∷ []
      → deliver algorithms requests responses req sent t
        ≡ (context_reply algorithms requests responses req res t).0
  unfolding deliver
  deliver-one req sent res t e = rw e refl

  module _ {W : Type 0} (s : Server Value W) (env : Env) (req : RequestData) (moves : List Move)
      (w : W) where
    -- The replies of the request's call, under a schedule.
    abbrev pub replies_of : List (Option (Context.Response Value))
    replies_of = (run s env moves (call s env (new_request_context (child req)) w)).ctx.sent

    -- Whatever the caller, the worker and the timeout do in whatever order, a request publishes
    -- one message or none.
    pub served_at_most_once :
        (t : Transport)
        → length (deliver algorithms requests responses req replies_of t).outbox
          ≤ length t.outbox + 1
    unfolding deliver
    served_at_most_once t = elim (run_at_most_once s env moves (child req) w) [
      | inl e ↦ rw e (omega arith)
      | inr e ↦ rw e (context_reply-outbox req _ t)
    ]

    module _ (lossless : AllLossless algorithms) (reject : EmptyInput algorithms)
        (faithful : FaithfulResponses responses) where
      -- With compression packages and a wire format that keep their contracts, a valid pool, and a
      -- handler in time: let the call's answer be an error. When `Server.Call` has returned, one
      -- message has been published on the reply topic, and the client's codec reads from it
      -- the request's id and encoding, the low 32 bits of the status, and the error's text.
      pub served_error :
          (status : ℤ) (e : Error) (t : Transport)
          → req.request.id < 2 ^ 64
          → InInt32 req.request.encoding
          → IsUtf8 (message e)
          → IsValid t.manager
          → answer s env (child req) ≡ some (error_response status e)
          → All (Fits false) moves
          → (run s env moves (call s env (new_request_context (child req)) w)).caller ≡ left
          → Delivers algorithms requests responses lossless reject faithful req t
              (deliver algorithms requests responses req replies_of t)
              (record {
                id = req.request.id;
                status = int32 status;
                error_message = message e;
                encoding = req.request.encoding;
                metadata = [];
                body = none;
              })
      served_error status e t i n u v a f l =
          let answers =
            context_reply_error algorithms requests responses lossless reject faithful req status
              e in
          let one =
            run_in_time s env (child req) (error_response status e) moves w
              (child-Transmits req _ (answers idle i n u tt).0) a f l in
          rw (deliver-one req _ _ t one.0) (answers t i n u v).1

      -- With compression packages and a wire format that keep their contracts, a valid pool, and a
      -- handler in time: let the call's answer be a protobuf message that can be marshalled. When
      -- `Server.Call` has returned, one message has been published on the reply topic, and the
      -- client's codec reads from it the request's id and encoding, status 200, no error text,
      -- and the message's type and bytes, up to nil for no bytes.
      pub served_ok :
          (type_name bytes : Bytes) (t : Transport)
          → req.request.id < 2 ^ 64
          → InInt32 req.request.encoding
          → IsUtf8 type_name
          → IsValid t.manager
          → answer s env (child req)
            ≡ some (ok_response (some (proto_message type_name (done bytes))))
          → All (Fits false) moves
          → (run s env moves (call s env (new_request_context (child req)) w)).caller ≡ left
          → Delivers algorithms requests responses lossless reject faithful req t
              (deliver algorithms requests responses req replies_of t)
              (record {
                id = req.request.id;
                status = status_ok;
                error_message = [];
                encoding = req.request.encoding;
                metadata = [];
                body = some (record { type_url = type_name; value = some bytes });
              })
      served_ok type_name bytes t i n u v a f l =
          let answers =
            context_reply_ok algorithms requests responses lossless reject faithful req type_name
              bytes in
          let one =
            run_in_time s env (child req) _ moves w
              (child-Transmits req _ (answers idle i n u tt).0) a f l in
          rw (deliver-one req _ _ t one.0) (answers t i n u v).1
