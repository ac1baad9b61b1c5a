-- ===== src/Mqttjson/Service/RpcCall.antt =====
-- A JSON call from the client's `WriteRequest` to its `ReadResponseBody`.
use go_reverse_rpc.Base.{
  ℕ, ℤ, ◌≡◌, ◌≢◌, refl, ap, sym, subst, ◌∙◌, false, none, some, List, [], ◌∷◌, Bytes, bytes_eq,
  ℕ_eq, arith, All,
}
use go_reverse_rpc.Base.Dict.{lookup, lookup-insert}
use go_reverse_rpc.Errors.{Error, message, Result, ok}
use go_reverse_rpc.Context.{
  returned, ChildContext, new_request_context, error_response, ok_response, status_ok,
}
use go_reverse_rpc.Server.{Server}
use go_reverse_rpc.Server.Call.{left, Env, Move, run, call}
use go_reverse_rpc.Server.Call.Answers.{answer, Fits}
use go_reverse_rpc.Mqttpb.Server.{Published}
use go_reverse_rpc.Mqttpb.ClientCodec.{Propagator, RpcRequest, injected, method_of}
use go_reverse_rpc.Mqttjson.Messages.{Request, Json, Lawful}
use go_reverse_rpc.Mqttjson.Server.{RequestData, calls, receive, reply_topic, bind}
use go_reverse_rpc.Mqttjson.ClientCodec.{
  ClientCodec, write_request, read_response_header, read_response_body,
}
use go_reverse_rpc.Mqttjson.ClientCodec.Replies.{write_request-pending}
use go_reverse_rpc.Mqttjson.Service.{Binding, bind_params, child_context, deliver, new_mqtt_context}
use go_reverse_rpc.Mqttjson.Service.Served.{child, replies_of, json_served_error, json_served_ok}

module _ {C : Type 0} (json : Json) (law : Lawful json) (propagator : Propagator C) where
  -- The metadata of a client's next request is UTF-8.
  abbrev pub TextMetadata : ClientCodec C → Type 0
  TextMetadata c =
      All (λ entry. law.IsText entry.0 × law.IsText entry.1)
        (injected propagator c.ctx c.request.metadata)

  -- A written request as it arrives.
  pub received_request :
      (r : RpcRequest) (params : Bytes) (c c₁ : ClientCodec C) (topic payload : Bytes)
      (req : RequestData) (outbox : List Published)
      → law.IsText r.service_method
      → TextMetadata c
      → law.IsJson params
      → write_request json propagator (λ bytes. none) r (ok params) c ≡ (ok payload, c₁)
      → receive json (record { topic = topic; retained = false; payload = payload }) outbox
        ≡ calls req
      → (req.topic ≡ topic)
        × (req.request.id ≡ r.seq)
        × (req.request.method ≡ r.service_method)
        × (req.request.params ≡ some params)
        × ((k : Bytes)
            → lookup k req.request.metadata
              ≡ lookup k (injected propagator c.ctx c.request.metadata))
  unfolding write_request receive
  received_request r params c c₁ topic payload req outbox m t j wrote got =
      let next : Request = record (c.request) {
        id = r.seq;
        method = r.service_method;
        params = some params;
        metadata = injected propagator c.ctx c.request.metadata;
      } in
      let (bytes, metadata, encodes, decodes, same) = law.requests next params m t refl j in
      let one : bytes ≡ payload = ground (arith, encodes, wrote) in
      let there : record { topic = topic; request = record next { metadata = metadata } } ≡ req =
        ground (arith, one, decodes, got) in
      (
        ap (λ (q : RequestData). q.topic) (sym there),
        ap (λ (q : RequestData). q.request.id) (sym there),
        ap (λ (q : RequestData). q.request.method) (sym there),
        ap (λ (q : RequestData). q.request.params) (sym there),
        λ k. ap (λ (q : RequestData). lookup k q.request.metadata) (sym there) ∙ same k,
      )

  -- The header that a codec reads of a response with the number of its request.
  pending_method :
      (r : RpcRequest) (params payload : Bytes) (c c₁ : ClientCodec C) (id : ℕ)
      → write_request json propagator (λ bytes. none) r (ok params) c ≡ (ok payload, c₁)
      → id ≡ r.seq
      → method_of (lookup id c₁.pending) ≡ r.service_method
  unfolding method_of
  pending_method r params payload c c₁ id wrote i =
      let codec = ap (λ (p : Result Bytes × ClientCodec C). p.1.pending) wrote in
      ground (
        arith,
        codec,
        write_request-pending json law propagator (λ bytes. none) r params c,
        lookup-insert r.seq r.seq r.service_method c.pending,
        i,
      )

-- The server answers calls of a method, whose params fill the target, with the JSON `content`.
abbrev pub AnswersCall :
    {W : Type 0} → Server (Result Bytes) W → Env → Bytes → Bytes → Result Bytes → Bytes → Type 0
AnswersCall s env method params target content =
    (ctx : ChildContext (Result Bytes))
    → ctx.method ≡ method
    → ctx.bind target ≡ returned (ok (some params))
    → answer s env ctx ≡ some (ok_response (some (ok content)))

module _ {C W : Type 0} (json : Json) (law : Lawful json) (nil_result : Result Bytes)
    (propagator : Propagator C) (background : C) (binding : Binding) (s : Server (Result Bytes) W)
    (env : Env) (moves : List Move) (w : W) (r : RpcRequest) (params : Bytes) (c c₁ : ClientCodec C)
    (topic payload : Bytes) (req : RequestData) (outbox : List Published)
    (text : law.IsText r.service_method) (metadata : TextMetadata json law propagator c)
    (params_json : law.IsJson params)
    (wrote : write_request json propagator (λ bytes. none) r (ok params) c ≡ (ok payload, c₁))
    (got : receive json (record { topic = topic; retained = false; payload = payload }) outbox
      ≡ calls req)
    (fits : All (Fits false) moves)
    (over : (run s env moves (
        call s env
          (new_request_context (child json nil_result propagator background binding req))
          w)).caller
      ≡ left) where
  -- With an encoding that keeps the contract of encoding/json: the client writes JSON as the params
  -- of a call, with a method and metadata in UTF-8, the server receives what was written, and
  -- answers calls of that method, whose params fill its target and are valid, with JSON, in time.
  -- When `Server.Call` has returned, it has published one message on the reply topic, and from it
  -- the client's codec reads the method and the number of its call, no error, and that JSON.
  pub json_rpc_call :
      (target : Result Bytes) (content : Bytes)
      → binding.unmarshal (some params) target ≡ none
      → binding.validate (some params) target ≡ none
      → AnswersCall s env r.service_method params target content
      → law.IsJson content
      → (reply : Bytes) × (deliver json nil_result req
            (replies_of json nil_result propagator background binding s env req moves w)
            outbox
          ≡ record { topic = reply_topic req; qos = 0; retained = false; payload = reply } ∷ outbox)
        × (let (header, c₂) = read_response_header json propagator reply c₁ in
            (header ≡ ok (record { service_method = r.service_method; seq = r.seq; error = [] }))
            × (read_response_body c₂ ≡ some content))
  unfolding child_context new_mqtt_context bind_params bind
  json_rpc_call target content fills valid answers j =
      let (there, i, m, p, same) =
        received_request json law propagator r params c c₁ topic payload req outbox text metadata
          params_json wrote got in
      let ctx = child json nil_result propagator background binding req in
      let expected = answers ctx m (ground (arith, p, fills, valid)) in
      let (reply, sent, (header, body, pending)) =
        json_served_ok json nil_result propagator background binding s env req moves w law c₁ outbox
          fits over (subst law.IsText (sym m) text) content expected j in
      (
        reply,
        sent,
        (
          ground (
            arith,
            header,
            i,
            pending_method json law propagator r params payload c c₁ _ wrote i,
          ),
          body,
        ),
      )

  -- With an encoding that keeps the contract of encoding/json: the client writes JSON as the params
  -- of a call, with a method and metadata in UTF-8, the server receives what was written, and
  -- answers it with an error whose text is UTF-8 and whose status is not 200, in time. When
  -- `Server.Call` has returned, it has published one message on the reply topic, and from it the
  -- client's codec reads the method and the number of its call, and the error's text.
  pub json_rpc_call_error :
      (status : ℤ) (e : Error)
      → answer s env (child json nil_result propagator background binding req)
        ≡ some (error_response status e)
      → law.IsText (message e)
      → status ≢ status_ok
      → (reply : Bytes) × (deliver json nil_result req
            (replies_of json nil_result propagator background binding s env req moves w)
            outbox
          ≡ record { topic = reply_topic req; qos = 0; retained = false; payload = reply } ∷ outbox)
        × ((read_response_header json propagator reply c₁).0
            ≡ ok (record { service_method = r.service_method; seq = r.seq; error = message e }))
  json_rpc_call_error status e answered t n =
      let (there, i, m, p, same) =
        received_request json law propagator r params c c₁ topic payload req outbox text metadata
          params_json wrote got in
      let (reply, sent, (header, body, pending)) =
        json_served_error json nil_result propagator background binding s env req moves w law c₁
          outbox fits over (subst law.IsText (sym m) text) status e answered t n in
      (
        reply,
        sent,
        ground
            (arith, header, i, pending_method json law propagator r params payload c c₁ _ wrote i),
      )
