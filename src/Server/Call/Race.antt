-- ===== src/Server/Call/Race.antt =====
-- The window between the compare-and-swap and the store of the response, when the handler's
-- timeout falls into it.
use go_reverse_rpc.Base.{◌≡◌, Bool, true, Option, some, List, [], ◌∷◌, ◌++◌, arith, lit, bytes_eq}
use go_reverse_rpc.Base.Dict.{lookup}
use go_reverse_rpc.Context.{Response, ChildContext, new_request_context}
use go_reverse_rpc.Server.{Server, Handler, Program, replies}
use go_reverse_rpc.Server.Call.{
  crashed, Env, Move, caller_moves, worker_moves, times_out, run, call,
}

-- The handler starts its first reply, the pool gives up, and the caller returns at once.
abbrev pub late_schedule : List Move
late_schedule =
    caller_moves ∷ caller_moves ∷ worker_moves ∷ worker_moves ∷ times_out ∷ caller_moves
    ∷ caller_moves ∷ []

module _ {R W : Type 0} (s : Server R W) (env : Env) (child : ChildContext R) where
  -- For every registered handler that replies at all, in a call that the rejecting limiter
  -- admits: if the pool's timeout falls between the compare-and-swap of the first reply and the
  -- store of its response, `Call` panics on a nil response, nothing has been sent, and neither
  -- the request's record nor any callback comes about.
  pub late_reply_crashes :
      (hdl : Handler R) (res : Option (Response R)) (next : Bool → Program R) (w : W)
      → s.options.limiter_reject ≡ true
      → env.allow ≡ true
      → lookup child.method s.handler_map ≡ some hdl
      → hdl.method child ≡ replies res next
      → let m = run s env late_schedule (call s env (new_request_context child) w) in
        (m.caller ≡ crashed (lit "invalid memory address or nil pointer dereference"))
        × (m.ctx.sent ≡ [])
        × (m.world
            ≡ s.telemetry.end_span
                (s.telemetry.start_span (lit "RRPC.Server.Call " ++ child.method) w))
  unfolding run call new_request_context
  late_reply_crashes hdl res next w l a f p = ground arith
