-- ===== src/Context.antt =====
-- context.go: identifiers, responses, and the guard that lets one reply through.
pub mod Replies
use go_reverse_rpc.Errors.{Error, Result}
use go_reverse_rpc.Base.{
  ℕ, ℤ, pos, Bool, true, false, Option, none, some, List, [], ◌∷◌, ◌++◌, if◌then◌else◌, ◌==◌,
  bytes_eq, Bytes, lit, format_uint,
}

-- constants.go
abbrev pub status_ok : ℤ
status_ok = pos 200

abbrev pub status_client_error : ℤ
status_client_error = pos 400

abbrev pub status_request_timeout : ℤ
status_request_timeout = pos 408

abbrev pub status_too_fraquently : ℤ
status_too_fraquently = pos 429

abbrev pub status_server_error : ℤ
status_server_error = pos 500

abbrev pub default_qos : ℕ
default_qos = 0

pub record Identifier : Type 0 where
  pub num : ℕ
  pub str : Bytes

-- `func (id *ID) String()`
unfoldable pub id_string : Identifier → Bytes
unfolding format_uint
id_string id = if id.str == [] then format_uint id.num else id.str

-- `R` is what stands for `interface{}`, the results of handlers.
pub record Response (R : Type 0) : Type 0 where
  pub result : Option R
  pub error : Option Error
  pub status : ℤ

-- What a Go call does: it returns, or it panics with a value that prints as the text.
pub data Outcome (A : Type 0) : Type 0 where
  returned : A → Outcome A
  panicked : Bytes → Outcome A

-- The interface that each transport implements, less `Ctx`. `none` is the nil `*Response`. `bind`
-- gives the bytes that its target is filled from.
pub record ChildContext (R : Type 0) : Type 0 where
  pub id : Identifier
  pub method : Bytes
  pub reply_desc : Bytes
  pub bind : R → Outcome (Result (Option Bytes))
  pub reply : Option (Response R) → Outcome Bool

-- `sent` records the calls of `childCtx.Reply`, the latest first; all else is the Go struct.
pub record RequestContext (R : Type 0) : Type 0 where
  pub res : Option (Response R)
  pub replyed : Bool
  pub child : ChildContext R
  pub sent : List (Option (Response R))

-- `Ctx`, of what the transport's `Ctx` gives, which may be nil.
unfoldable pub request_ctx : {C : Type 0} → C → Option C → C
request_ctx background none = background
request_ctx background (some ctx) = ctx

module _ {R : Type 0} where
  unfoldable pub new_request_context : ChildContext R → RequestContext R
  new_request_context child = record { res = none; replyed = false; child = child; sent = [] }

  -- `ID`
  unfoldable pub request_id : RequestContext R → Identifier
  request_id c = c.child.id

  -- `Method`
  unfoldable pub request_method : RequestContext R → Bytes
  request_method c = c.child.method

  -- `ReplyDesc`
  unfoldable pub reply_desc : RequestContext R → Bytes
  reply_desc c = c.child.reply_desc

  -- `Bind`
  unfoldable pub bind : R → RequestContext R → Outcome (Result (Option Bytes))
  bind target c = c.child.bind target

  -- `c.replyed.CompareAndSwap(false, true)`
  unfoldable pub compare_and_swap : RequestContext R → RequestContext R × Bool
  compare_and_swap c = if c.replyed then (c, false) else (record c { replyed = true }, true)

  unfoldable pub set_response : Option (Response R) → RequestContext R → RequestContext R
  set_response res c = record c { res = res }

  unfoldable pub get_response : RequestContext R → Option (Response R)
  get_response c = c.res

  -- `c.childCtx.Reply(res)`
  unfoldable pub send : Option (Response R) → RequestContext R → RequestContext R × Outcome Bool
  send res c = (record c { sent = res ∷ c.sent }, c.child.reply res)

  unfoldable pub reply : Option (Response R) → RequestContext R → RequestContext R × Outcome Bool
  unfolding compare_and_swap set_response send
  reply res c =
      let (c', won) = compare_and_swap c in
      if won then send res (set_response res c') else (c', returned false)

  abbrev pub ok_response : Option R → Response R
  ok_response value = record { result = value; error = none; status = status_ok }

  abbrev pub error_response : ℤ → Error → Response R
  error_response status err = record { result = none; error = some err; status = status }

  unfoldable pub reply_ok : Option R → RequestContext R → RequestContext R × Outcome Bool
  unfolding reply
  reply_ok value c = reply (some (ok_response value)) c

  unfoldable pub reply_error : ℤ → Error → RequestContext R → RequestContext R × Outcome Bool
  unfolding reply
  reply_error status err c = reply (some (error_response status err)) c
