-- ===== src/Mqttjson/ClientCodec/Replies.antt =====
-- What the JSON client reads of a reply that the JSON server publishes.
use go_reverse_rpc.Base.{
  ℕ, ℤ, ◌≡◌, ◌≢◌, refl, true, false, Option, none, some, List, [], ◌∷◌, Bytes, ℕ_eq, ◌==◌,
  if◌then◌else◌, arith,
}
use go_reverse_rpc.Base.Int.{ℤ_eq}
use go_reverse_rpc.Base.Dict.{lookup, insert, lookup-insert, lookup-erase}
use go_reverse_rpc.Errors.{Error, message, Result, ok}
use go_reverse_rpc.Context.{returned, error_response, ok_response, status_ok}
use go_reverse_rpc.Mqttpb.Server.{Published}
use go_reverse_rpc.Mqttpb.ClientCodec.{RpcRequest, Propagator, method_of}
use go_reverse_rpc.Mqttjson.Messages.{Json, Lawful}
use go_reverse_rpc.Mqttjson.Server.{
  RequestData, ResponseData, reply_topic, get_response, make_ok_response, make_err_response,
  publish, reply, context_reply,
}
use go_reverse_rpc.Mqttjson.ClientCodec.{
  ClientCodec, write_request, response_error, read_response_header, read_response_body,
}

module _ {C : Type 0} (json : Json) (law : Lawful json) (propagator : Propagator C) where
  -- The one message that a reply publishes, and what the client's codec `c` reads from it: the
  -- method that it has pending for the request's id, that id, and an error text. Then that call
  -- alone is no longer pending.
  abbrev pub Delivers :
      RequestData → List Published → List Published → ClientCodec C → Bytes → Bytes → Type 0
  Delivers req outbox outbox' c content text =
      (payload : Bytes) × (outbox'
        ≡ record { topic = reply_topic req; qos = 0; retained = false; payload = payload } ∷ outbox)
      × (let (header, c') = read_response_header json propagator payload c in
          (header
            ≡ ok (record {
              service_method = method_of (lookup req.request.id c.pending);
              seq = req.request.id;
              error = text;
            }))
          × (read_response_body c' ≡ some content)
          × ((j : ℕ)
              → lookup j c'.pending ≡ (if req.request.id == j then none else lookup j c.pending)))

  reply-Delivers :
      (req : RequestData) (outbox : List Published) (c : ClientCodec C) (res : ResponseData)
      (content text : Bytes)
      → res.topic ≡ reply_topic req
      → res.response.id ≡ req.request.id
      → law.IsText res.response.method
      → res.response.metadata ≡ []
      → res.response.content ≡ some content
      → law.IsJson content
      → response_error json (record (res.response) { metadata = c.response.metadata }) ≡ ok text
      → Delivers req outbox (reply json res outbox) c content text
  unfolding reply publish read_response_header read_response_body
  reply-Delivers req outbox c res content text t i m n d j e =
      let (payload, encodes, decodes) = law.responses res.response c.response content m n d j in
      (
        payload,
        ground (arith, encodes),
        (
          ground (arith, decodes),
          ground (arith, decodes),
          λ k. ground (arith, decodes, lookup-erase k req.request.id c.pending),
        ),
      )

  -- With an encoding that keeps the contract of encoding/json, and a request method in UTF-8:
  -- `Reply` of an error whose text is UTF-8, with a status other than 200, publishes one message
  -- on the reply topic. The client's codec reads from it the request's id, the method it has
  -- pending for it, and the error's text; that call alone is no longer pending.
  pub json_reply_error :
      (nil_result : Result Bytes) (req : RequestData) (status : ℤ) (e : Error)
      (outbox : List Published) (c : ClientCodec C)
      → law.IsText req.request.method
      → law.IsText (message e)
      → status ≢ status_ok
      → let (outbox', answer) =
          context_reply json nil_result req (some (error_response status e)) outbox in
        (answer ≡ returned true)
        × Delivers req outbox outbox' c (json.error_object (message e)) (message e)
  unfolding context_reply make_err_response get_response response_error
  json_reply_error nil_result req status e outbox c m t s = (
    refl,
    reply-Delivers req outbox c _ _ _ refl refl m refl refl (law.error_json (message e) t)
        (ground (arith, law.reads_error (message e) t)),
  )

  -- With an encoding that keeps the contract of encoding/json, and a request method in UTF-8:
  -- `Reply` of a result that `json.Marshal` turns into JSON publishes one message on the reply
  -- topic. The client's codec reads from it the request's id, the method it has pending for it,
  -- no error, and that JSON; that call alone is no longer pending.
  pub json_reply_ok :
      (nil_result : Result Bytes) (req : RequestData) (content : Bytes) (outbox : List Published)
      (c : ClientCodec C)
      → law.IsText req.request.method
      → law.IsJson content
      → let (outbox', answer) =
          context_reply json nil_result req (some (ok_response (some (ok content)))) outbox in
        (answer ≡ returned true) × Delivers req outbox outbox' c content []
  unfolding context_reply make_ok_response get_response response_error
  json_reply_ok nil_result req content outbox c m j =
      (refl, reply-Delivers req outbox c _ _ _ refl refl m refl refl j (ground arith))

  pub write_request-pending :
      (write : Bytes → Option Error) (r : RpcRequest) (params : Bytes) (c : ClientCodec C)
      → (write_request json propagator write r (ok params) c).1.pending
        ≡ insert r.seq r.service_method c.pending
  unfolding write_request
  write_request-pending write r params c = ground arith

  -- With an encoding that keeps the contract of encoding/json: a call whose argument was
  -- marshalled, and a request with its number and a method in UTF-8 that the server answers with
  -- JSON. Whatever became of the call's `WriteRequest`, the client's codec reads from the published
  -- message the method of the call, its number, no error, and that JSON.
  pub json_call :
      (write : Bytes → Option Error) (r : RpcRequest) (params : Bytes) (c : ClientCodec C)
      (nil_result : Result Bytes) (req : RequestData) (content : Bytes) (outbox : List Published)
      → law.IsText req.request.method
      → law.IsJson content
      → req.request.id ≡ r.seq
      → let c₁ = (write_request json propagator write r (ok params) c).1 in
        let (outbox', answer) =
          context_reply json nil_result req (some (ok_response (some (ok content)))) outbox in
        (payload : Bytes) × (outbox'
          ≡ record { topic = reply_topic req; qos = 0; retained = false; payload = payload }
            ∷ outbox)
        × (let (header, c₂) = read_response_header json propagator payload c₁ in
            (header ≡ ok (record { service_method = r.service_method; seq = r.seq; error = [] }))
            × (read_response_body c₂ ≡ some content))
  unfolding method_of
  json_call write r params c nil_result req content outbox m j e =
      let c₁ = (write_request json propagator write r (ok params) c).1 in
      let (answered, (payload, sent, (header, body, pending))) =
        json_reply_ok nil_result req content outbox c₁ m j in
      (
        payload,
        sent,
        (
          ground (
            arith,
            header,
            write_request-pending write r params c,
            lookup-insert r.seq r.seq r.service_method c.pending,
          ),
          body,
        ),
      )
