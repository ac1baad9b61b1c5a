-- ===== src/Context/Replies.antt =====
-- The at-most-once guard of `RequestContext.Reply`, for calls that run one after the other.
use go_reverse_rpc.Base.{◌≡◌, refl, Bool, true, false, Option, none, List, [], ◌∷◌, arith}
use go_reverse_rpc.Context.{
  Response, Outcome, returned, ChildContext, RequestContext, new_request_context, reply,
  get_response,
}

module _ {R : Type 0} where
  -- Between two calls: nothing was sent before the flag is up, and one response after.
  abbrev IsSettled : Bool → Option (Response R) → List (Option (Response R)) → Type 0
  IsSettled false res sent = (res ≡ none) × (sent ≡ [])
  IsSettled true res sent = sent ≡ res ∷ []

  abbrev pub IsValid : RequestContext R → Type 0
  IsValid c = IsSettled c.replyed c.res c.sent

  new-IsValid : (child : ChildContext R) → IsValid (new_request_context child)
  unfolding new_request_context
  new-IsValid child = (refl, refl)

  pub reply-IsValid :
      (res : Option (Response R)) (c : RequestContext R) → IsValid c → IsValid (reply res c).0
  unfolding reply
  reply-IsValid res c v = ground arith

  -- Several replies in a row, with the answers that the callers get.
  pub reply_all :
      List (Option (Response R)) → RequestContext R → RequestContext R × List (Outcome Bool)
  reply_all [] c = (c, [])
  reply_all (r ∷ rs) c =
      let (c', won) = reply r c in let (c'', wons) = reply_all rs c' in (c'', won ∷ wons)

  abbrev pub all_false : List (Option (Response R)) → List (Outcome Bool)
  all_false [] = []
  all_false (r ∷ rs) = returned false ∷ all_false rs

  reply_all-replyed :
      (rs : List (Option (Response R))) (c : RequestContext R)
      → c.replyed ≡ true
      → reply_all rs c ≡ (c, all_false rs)
  unfolding reply_all reply
  reply_all-replyed [] c h = refl
  reply_all-replyed (r ∷ rs) c h = ground (arith, reply_all-replyed rs c h)

  -- On a fresh context the first of any row of replies is sent and kept as the response, the first
  -- caller gets the transport's answer, and every later caller gets `false`.
  pub reply_all_first :
      (child : ChildContext R) (r : Option (Response R)) (rs : List (Option (Response R)))
      → let (c, answers) = reply_all (r ∷ rs) (new_request_context child) in
        (c.sent ≡ r ∷ []) × (get_response c ≡ r) × (answers ≡ child.reply r ∷ all_false rs)
  unfolding reply_all reply new_request_context get_response
  reply_all_first child r rs =
      let first = (reply r (new_request_context child)).0 in
      ground (arith, reply_all-replyed rs first)
