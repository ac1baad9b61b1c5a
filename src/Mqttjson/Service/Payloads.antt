-- ===== src/Mqttjson/Service/Payloads.antt =====
-- What the JSON server publishes is never empty.
use mathlib.Core.List.{append_assoc}
use go_reverse_rpc.Base.{
  ◌≡◌, ◌≢◌, refl, sym, ap, ◌∙◌, Bool, true, false, none, some, Option, List, [], ◌∷◌, ◌++◌, Bytes,
  bytes_eq, arith, All, length,
}
use go_reverse_rpc.Errors.{Error, Result, ok, err}
use go_reverse_rpc.Context
use go_reverse_rpc.Context.{Outcome, returned, new_request_context}
use go_reverse_rpc.Mqttpb.Server.{Published}
use go_reverse_rpc.Mqttjson.Messages.{Response, Json}
use go_reverse_rpc.Mqttjson.Server.{
  RequestData, ResponseData, context_reply, reply, publish, make_err_response, make_ok_response,
}
use go_reverse_rpc.Mqttjson.Service.{deliver}

-- What is published beyond an outbox has a payload.
abbrev pub Extends : List Published → List Published → Type 0
Extends outbox outbox' =
    (new : List Published) × (outbox' ≡ new ++ outbox) × All (λ p. p.payload ≢ []) new

All-append : {A : Type 0} (P : A → Type 0) (xs ys : List A) → All P xs → All P ys → All P (xs ++ ys)
All-append P [] ys p q = q
All-append P (x ∷ xs) ys p q = (p.0, All-append P xs ys p.1 q)

abbrev payload_of : List Published → Bytes
payload_of [] = []
payload_of (p ∷ ps) = p.payload

module _ (json : Json) (texts : (r : Response) → json.encode_response r ≢ ok []) where
  publish-Extends :
      (topic : Bytes) (result : Result Bytes) (outbox : List Published)
      → result ≢ ok []
      → Extends outbox (publish json topic result outbox)
  unfolding publish
  publish-Extends topic (err e) outbox n = ([], refl, tt)
  publish-Extends topic (ok bytes) outbox n = (
    record { topic = topic; qos = 0; retained = false; payload = bytes } ∷ [],
    refl,
    (λ e. n (ap (λ (b : Bytes). ok b) e), tt),
  )

  reply-Extends :
      (res : ResponseData) (outbox : List Published) → Extends outbox (reply json res outbox)
  unfolding reply
  reply-Extends res outbox =
      publish-Extends res.topic (json.encode_response res.response) outbox (texts res.response)

  chosen-Extends :
      (failure : Option Error) (result : Option (Result Bytes)) (nil_result : Result Bytes)
      (failed : Error → ResponseData) (made : Result Bytes → ResponseData) (outbox : List Published)
      → let out : List Published × Outcome Bool = elim failure [
        | some e ↦ (reply json (failed e) outbox, returned true)
        | none ↦ elim result [
          | none ↦ (reply json (made nil_result) outbox, returned true)
          | some res ↦ (reply json (made res) outbox, returned true)
        ]
      ] in
        Extends outbox out.0
  chosen-Extends (some e) result nil_result failed made outbox = reply-Extends (failed e) outbox
  chosen-Extends none none nil_result failed made outbox = reply-Extends (made nil_result) outbox
  chosen-Extends none (some res) nil_result failed made outbox = reply-Extends (made res) outbox

  context_reply-Extends :
      (nil_result : Result Bytes) (req : RequestData)
      (res : Option (Context.Response (Result Bytes))) (outbox : List Published)
      → Extends outbox (context_reply json nil_result req res outbox).0
  unfolding context_reply
  context_reply-Extends nil_result req none outbox = ([], refl, tt)
  context_reply-Extends nil_result req (some res) outbox =
      chosen-Extends res.error res.result nil_result (λ e. make_err_response json req res.status e)
        (λ r. make_ok_response req r) outbox

  pub deliver-Extends :
      (nil_result : Result Bytes) (req : RequestData)
      (sent : List (Option (Context.Response (Result Bytes)))) (outbox : List Published)
      → Extends outbox (deliver json nil_result req sent outbox)
  unfolding deliver
  deliver-Extends nil_result req [] outbox = ([], refl, tt)
  deliver-Extends nil_result req (res ∷ sent) outbox =
      let (new, e, n) = deliver-Extends nil_result req sent outbox in
      let (new', e', n') =
        context_reply-Extends nil_result req res (deliver json nil_result req sent outbox) in
      (
        new' ++ new,
        e' ∙ ap (λ l. new' ++ l) e ∙ sym (append_assoc new' new outbox),
        All-append (λ (p : Published). p.payload ≢ []) new' new n' n,
      )

  -- The one message that is published beyond an outbox has a payload.
  pub one-Extends :
      (p : Published) (outbox : List Published) → Extends outbox (p ∷ outbox) → p.payload ≢ []
  one-Extends p outbox ([], e, n) empty =
      absurd (omega (arith, ap (λ (l : List Published). length l) e))
  one-Extends p outbox (q ∷ new, e, n) empty = n.0 (ap payload_of (sym e) ∙ empty)
