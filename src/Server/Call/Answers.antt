-- ===== src/Server/Call/Answers.antt =====
-- Which response a call sends: what the limiter, the handler map and the handler's first reply
-- decide, whatever the schedule, as long as the handler is in time.
use go_reverse_rpc.Base.{
  ◌≡◌, refl, sym, subst, Bool, true, false, Option, none, some, List, [], ◌∷◌, Bytes, arith,
  bytes_eq, All, if◌then◌else◌,
}
use go_reverse_rpc.Base.Dict.{lookup}
use go_reverse_rpc.Context.{
  Response, ChildContext, Outcome, returned, panicked, RequestContext, new_request_context,
  error_response, status_request_timeout, status_too_fraquently, status_server_error,
}
use go_reverse_rpc.Errors.{no_reply, too_frequently, timeout, unhandled_method, panic_in_method}
use go_reverse_rpc.Server.{Server, Handler, Program, returns, panics, replies}
use go_reverse_rpc.Server.Call.{
  Phase, swap, store, transmit, Cont, Worker, absent, queued, calls, finished, Caller, enters,
  looks_up, waits, answers_error, leaves, left, crashed, Env, Machine, Move, caller_moves,
  worker_moves, times_out, worker_step, caller_step, step, run, call, enter, resume, advance,
  worker_next, in_method, after_method, in_recover,
}

module _ {R : Type 0} where
  -- The first reply of a handler; one that ends without a reply stands for the server's own.
  abbrev pub first_reply : Bytes → Program R → Option (Response R)
  first_reply name returns = some (error_response status_server_error no_reply)
  first_reply name (panics value) =
      some (error_response status_server_error (panic_in_method name value))
  first_reply name (replies res next) = res

  abbrev pub looked_up : Option (Handler R) → ChildContext R → Option (Response R)
  looked_up none child = some (error_response status_server_error (unhandled_method child.method))
  looked_up (some hdl) child = first_reply child.method (hdl.method child)

  -- What the specification lets through: with the token bucket, or after a wait.
  abbrev pub admitted : Bool → Env → Option (Response R) → Option (Response R)
  admitted true env found =
      if env.allow then found else some (error_response status_too_fraquently too_frequently)
  admitted false env found = elim env.wait [
    | none ↦ found
    | some e ↦ some (error_response status_request_timeout timeout)
  ]

-- The response that a call is to send.
abbrev pub answer : {R W : Type 0} → Server R W → Env → ChildContext R → Option (Response R)
answer s env child =
    admitted s.options.limiter_reject env (looked_up (lookup child.method s.handler_map) child)

-- `P` holds of every response that may be sent.
module _ {R : Type 0} (P : Option (Response R) → Type 0) where
  -- Until the flag is up.
  abbrev Unless : Bool → Option (Response R) → Type 0
  Unless true res = Unit
  Unless false res = P res

  abbrev PhaseOk : Bool → Phase R → Type 0
  PhaseOk b (swap res) = Unless b res
  PhaseOk b (store res) = P res × (b ≡ true)
  PhaseOk b (transmit res) = P res × (b ≡ true)

  abbrev WorkerOk : Bytes → Bool → Worker R → Type 0
  WorkerOk name b (queued program) = Unless b (first_reply name program)
  WorkerOk name b (calls phase k) = PhaseOk b phase
  WorkerOk name b finished = b ≡ true
  WorkerOk name b _ = Unit

  enter-keeps :
      (name : Bytes) (b : Bool) (program : Program R)
      → Unless b (first_reply name program)
      → WorkerOk name b (enter name program)
  unfolding enter
  enter-keeps name b returns h = h
  enter-keeps name b (panics value) h = h
  enter-keeps name b (replies res next) h = h

  resume-keeps :
      (name : Bytes) (k : Cont R) (answered : Outcome Bool)
      → WorkerOk name true (resume name k answered)
  unfolding resume
  resume-keeps name (in_method next) (returned ok) = enter-keeps name true (next ok) tt
  resume-keeps name after_method (returned ok) = refl
  resume-keeps name in_recover (returned ok) = refl
  resume-keeps name (in_method next) (panicked value) = tt
  resume-keeps name after_method (panicked value) = tt
  resume-keeps name in_recover (panicked value) = tt

  worker_step-keeps :
      (name : Bytes) (w : Worker R) (c : RequestContext R)
      → WorkerOk name c.replyed w
      → All P c.sent
      → WorkerOk name (worker_step name w c).0.replyed (worker_step name w c).1
        × All P (worker_step name w c).0.sent
  unfolding worker_step advance worker_next
  worker_step-keeps name absent c v a = (tt, a)
  worker_step-keeps name (queued program) c v a = (enter-keeps name c.replyed program v, a)
  worker_step-keeps name (calls (swap res) k) c v a =
      ground (arith, resume-keeps name k (returned false))
  worker_step-keeps name (calls (store res) k) c v a = (v, a)
  worker_step-keeps name (calls (transmit res) k) c v a =
      ground (arith, resume-keeps name k (c.child.reply res))
  worker_step-keeps name finished c v a = (v, a)
  worker_step-keeps name (crashed value) c v a = (tt, a)

abbrev pub Idle : {R : Type 0} → Worker R → Type 0
Idle absent = Unit
Idle finished = Unit
Idle _ = ⊥

-- A schedule that may time out, or one that does not.
abbrev pub Fits : Bool → Move → Type 0
Fits false times_out = ⊥
Fits _ _ = Unit

abbrev pub IdleIf : {R : Type 0} → Bool → Worker R → Type 0
IdleIf true w = Unit
IdleIf false w = Idle w

abbrev pub late_response : {R : Type 0} → Env → Option (Response R)
late_response env = some (error_response status_server_error env.job_error)

pub worker_step-child :
    {R : Type 0} (name : Bytes) (w : Worker R) (c : RequestContext R)
    → (worker_step name w c).0.child ≡ c.child
unfolding worker_step advance
worker_step-child name w c = ground arith

module _ {R W : Type 0} (P : Option (Response R) → Type 0) (late : Bool) (s : Server R W)
    (env : Env) (child : ChildContext R) where
  abbrev found : Option (Handler R)
  found = lookup child.method s.handler_map

  abbrev CallerOk : Bool → Caller R → Worker R → Type 0
  CallerOk b enters w = P (answer s env child) × (w ≡ absent)
  CallerOk b looks_up w = P (looked_up found child) × (w ≡ absent)
  CallerOk b waits w = Unit
  CallerOk b (answers_error phase) w = PhaseOk P b phase × IdleIf late w
  CallerOk b _ w = (b ≡ true) × IdleIf late w

  abbrev LateOk : Bool → Type 0
  LateOk true = P (late_response env)
  LateOk false = Unit

  pub record Ok (m : Machine R W) (x : Caller R) : Type 0 where
    pub same_child : m.ctx.child ≡ child
    pub caller_ok : CallerOk m.ctx.replyed x m.worker
    pub worker_ok : WorkerOk P child.method m.ctx.replyed m.worker
    pub sent_ok : All P m.ctx.sent

  caller_step-Ok :
      (x : Caller R) (m : Machine R W)
      → m.caller ≡ x
      → Ok m x
      → Ok (caller_step s env x m) (caller_step s env x m).caller
  unfolding caller_step
  caller_step-Ok enters m e v = ground arith
  caller_step-Ok looks_up m e v = ground arith
  caller_step-Ok waits m e v = ground arith
  caller_step-Ok (answers_error phase) m e v = ground arith
  caller_step-Ok (leaves panic) m e v = ground arith
  caller_step-Ok left m e v = subst (Ok m) (sym e) v
  caller_step-Ok (crashed value) m e v = subst (Ok m) (sym e) v

  worker_step-CallerOk :
      (name : Bytes) (w : Worker R) (c : RequestContext R) (x : Caller R)
      → CallerOk c.replyed x w
      → CallerOk (worker_step name w c).0.replyed x (worker_step name w c).1
  unfolding worker_step advance
  worker_step-CallerOk name absent c x h = h
  worker_step-CallerOk name (queued program) c x h = ground arith
  worker_step-CallerOk name (calls phase k) c x h = ground arith
  worker_step-CallerOk name finished c x h = h
  worker_step-CallerOk name (crashed value) c x h = h

  worker_moves-Ok :
      (m : Machine R W)
      → Ok m m.caller
      → Ok (step s env worker_moves m) (step s env worker_moves m).caller
  unfolding step
  worker_moves-Ok m v =
      let name = m.ctx.child.method in
      ground (
        arith,
        worker_step-keeps P name m.worker m.ctx,
        worker_step-child name m.worker m.ctx,
        worker_step-CallerOk name m.worker m.ctx m.caller,
      )

  pub step-Ok :
      (move : Move) (m : Machine R W)
      → LateOk late
      → Fits late move
      → Ok m m.caller
      → Ok (step s env move m) (step s env move m).caller
  unfolding step
  step-Ok caller_moves m l f v = caller_step-Ok m.caller m refl v
  step-Ok worker_moves m l f v = worker_moves-Ok m v
  step-Ok times_out m l f v = ground arith

  pub run-Ok :
      (moves : List Move) (m : Machine R W)
      → LateOk late
      → All (Fits late) moves
      → Ok m m.caller
      → Ok (run s env moves m) (run s env moves m).caller
  unfolding run
  run-Ok [] m l f v = v
  run-Ok (move ∷ moves) m l f v = run-Ok moves (step s env move m) l f.1 (step-Ok move m l f.0 v)

  pub call-Ok :
      (w : W) → P (answer s env child) → Ok (call s env (new_request_context child) w) enters
  unfolding call new_request_context
  call-Ok w h = ground arith
