-- ===== src/Server/Call.antt =====
-- `Server.Call`: the goroutine that calls it, and the worker that runs the handler. Both reply
-- through one `RequestContext`, in the atomic steps of `Reply`, and a schedule interleaves them.
pub mod AtMostOnce
pub mod Returns
pub mod Completes
pub mod Race
pub mod InTime
pub mod Served
pub mod Answers
use go_reverse_rpc.Base.{
  ℕ, ◌≡◌, Bool, true, false, Option, none, some, List, [], ◌∷◌, ◌++◌, Bytes, bytes_eq, lit,
  if◌then◌else◌,
}
use go_reverse_rpc.Base.Dict.{lookup}
use go_reverse_rpc.Context.{
  Response, Outcome, returned, panicked, ChildContext, RequestContext, compare_and_swap,
  set_response, send, get_response, error_response, status_request_timeout, status_too_fraquently,
  status_server_error,
}
use go_reverse_rpc.Errors.{
  Error, no_reply, too_frequently, timeout, unhandled_method, panic_in_method,
}
use go_reverse_rpc.Server.{
  Server, Handler, Program, returns, panics, replies, AfterResponseEvent, emit_after_response,
  round_millisecond, status_label,
}

-- Where a goroutine stands in `Reply`: before the compare-and-swap, before the store of the
-- response, before the call of the transport.
pub data Phase (R : Type 0) : Type 0 where
  swap store transmit : Option (Response R) → Phase R

pub data Progress (R : Type 0) : Type 0 where
  continues : Phase R → Progress R
  answers : Outcome Bool → Progress R

-- What the worker does once its `Reply` answers: go on in the method, end after the reply of
-- `ErrNoReply`, or end after the reply in `recover`.
pub data Cont (R : Type 0) : Type 0 where
  in_method : (Bool → Program R) → Cont R
  after_method in_recover : Cont R

pub data Worker (R : Type 0) : Type 0 where
  absent : Worker R
  queued : Program R → Worker R
  calls : Phase R → Cont R → Worker R
  finished : Worker R
  crashed : Bytes → Worker R

-- `leaves` is the deferred function, with the panic under which it runs, if any.
pub data Caller (R : Type 0) : Type 0 where
  enters looks_up waits : Caller R
  answers_error : Phase R → Caller R
  leaves : Option Bytes → Caller R
  left : Caller R
  crashed : Bytes → Caller R

-- What the code gets from the limiter, the clock and the worker pool.
pub record Env : Type 0 where
  pub allow : Bool
  pub wait : Option Error
  pub elapsed : ℕ
  pub job_error : Error

pub record Machine (R W : Type 0) : Type 0 where
  pub ctx : RequestContext R
  pub caller : Caller R
  pub worker : Worker R
  pub world : W

pub data Move : Type 0 where
  caller_moves worker_moves times_out : Move

module _ {R : Type 0} where
  -- One atomic step of `Reply`.
  unfoldable pub advance : Phase R → RequestContext R → RequestContext R × Progress R
  unfolding compare_and_swap set_response send
  advance (swap res) c =
      let (c', won) = compare_and_swap c in
      (c', if won then continues (store res) else answers (returned false))
  advance (store res) c = (set_response res c, continues (transmit res))
  advance (transmit res) c = let (c', answer) = send res c in (c', answers answer)

  -- The job of the pool, up to its next `Reply`; `name` is the method.
  unfoldable pub enter : Bytes → Program R → Worker R
  enter name returns =
      calls (swap (some (error_response status_server_error no_reply))) after_method
  enter name (panics value) =
      calls (swap (some (error_response status_server_error (panic_in_method name value))))
        in_recover
  enter name (replies res next) = calls (swap res) (in_method next)

  unfoldable pub resume : Bytes → Cont R → Outcome Bool → Worker R
  unfolding enter
  resume name (in_method next) (returned ok) = enter name (next ok)
  resume name after_method (returned ok) = finished
  resume name in_recover (returned ok) = finished
  resume name (in_method next) (panicked value) = enter name (panics value)
  resume name after_method (panicked value) = enter name (panics value)
  resume name in_recover (panicked value) = crashed value

  unfoldable pub worker_next : Bytes → Cont R → Progress R → Worker R
  unfolding resume
  worker_next name k (continues phase) = calls phase k
  worker_next name k (answers answer) = resume name k answer

  unfoldable pub worker_step : Bytes → Worker R → RequestContext R → RequestContext R × Worker R
  unfolding advance enter worker_next
  worker_step name absent c = (c, absent)
  worker_step name (queued program) c = (c, enter name program)
  worker_step name (calls phase k) c =
      let (c', progress) = advance phase c in (c', worker_next name k progress)
  worker_step name finished c = (c, finished)
  worker_step name (crashed value) c = (c, crashed value)

  unfoldable pub caller_next : Progress R → Caller R
  caller_next (continues phase) = answers_error phase
  caller_next (answers (returned ok)) = leaves none
  caller_next (answers (panicked value)) = leaves (some value)

  -- The limiter: reject at once, or wait for a token until the context ends.
  unfoldable pub limit : Bool → Env → Caller R
  limit true env =
      if env.allow
      then looks_up
      else answers_error (swap (some (error_response status_too_fraquently too_frequently)))
  limit false env = elim env.wait [
    | none ↦ looks_up
    | some e ↦ answers_error (swap (some (error_response status_request_timeout timeout)))
  ]

  -- `ProcessTimed` returns no error once the job has run.
  unfoldable pub await : Worker R → Caller R
  await finished = leaves none
  await _ = waits

  unfoldable pub look_up : Option (Handler R) → ChildContext R → Caller R × Worker R
  look_up none child = (
    answers_error
        (swap (some (error_response status_server_error (unhandled_method child.method)))),
    absent,
  )
  look_up (some hdl) child = (waits, queued (hdl.method child))

  abbrev depart : Option Bytes → Caller R
  depart none = left
  depart (some value) = crashed value

module _ {R W : Type 0} (s : Server R W) (env : Env) where
  -- The deferred function. `evt.Res.Error` panics on a nil response, before any callback runs.
  unfoldable pub leave : Option Bytes → Option (Response R) → Bytes → W → Caller R × W
  leave panic none name w =
      (crashed (lit "invalid memory address or nil pointer dereference"), s.telemetry.end_span w)
  leave panic (some r) name w =
      let duration = round_millisecond env.elapsed in
      let recorded = s.telemetry.record_request duration name (status_label (some r)) r.error w in
      let emitted = emit_after_response s (record { duration = duration; res = some r }) recorded in
      (depart panic, s.telemetry.end_span emitted)

  unfoldable pub caller_step : Caller R → Machine R W → Machine R W
  unfolding leave limit look_up await advance caller_next get_response
  caller_step enters m = record m { caller = limit s.options.limiter_reject env }
  caller_step looks_up m =
      let child = m.ctx.child in
      let (x, w) = look_up (lookup child.method s.handler_map) child in
      record m { caller = x; worker = w }
  caller_step waits m = record m { caller = await m.worker }
  caller_step (answers_error phase) m =
      let (c', progress) = advance phase m.ctx in
      record m { ctx = c'; caller = caller_next progress }
  caller_step (leaves panic) m =
      let (x, w) = leave panic (get_response m.ctx) m.ctx.child.method m.world in
      record m { caller = x; world = w }
  caller_step left m = m
  caller_step (crashed value) m = m

  abbrev timed_out : Caller R → Caller R
  timed_out waits = answers_error (swap (some (error_response status_server_error env.job_error)))
  timed_out x = x

  unfoldable pub step : Move → Machine R W → Machine R W
  unfolding caller_step worker_step
  step caller_moves m = caller_step m.caller m
  step worker_moves m =
      let (c', w) = worker_step m.ctx.child.method m.worker m.ctx in
      record m { ctx = c'; worker = w }
  step times_out m = record m { caller = timed_out m.caller }

  unfoldable pub run : List Move → Machine R W → Machine R W
  unfolding step
  run [] m = m
  run (move ∷ moves) m = run moves (step move m)

  -- `Call(c)`, after its span has started.
  unfoldable pub call : RequestContext R → W → Machine R W
  call c w = record {
    ctx = c;
    caller = enters;
    worker = absent;
    world = s.telemetry.start_span (lit "RRPC.Server.Call " ++ c.child.method) w;
  }
