-- ===== src/Server/Call/Returns.antt =====
-- From every call whose answer can be sent there is a way to its return.
use go_reverse_rpc.Base.{
  ℕ, zero, suc, ◌≡◌, refl, ap, subst, ◌∙◌, ◌⊎◌, Option-cases, Bool-cases, inl, inr, Bool, true,
  false, none, some, List, [], ◌∷◌, ◌++◌, bytes_eq, arith, All, lit, replicate,
}
use go_reverse_rpc.Base.Dict.{lookup}
use go_reverse_rpc.Context.{
  Response, ChildContext, new_request_context, error_response, status_server_error,
  status_request_timeout, status_too_fraquently,
}
use go_reverse_rpc.Errors.{unhandled_method, timeout, too_frequently}
use go_reverse_rpc.Server.{Server, Program}
use go_reverse_rpc.Server.Call.{
  swap, store, transmit, queued, finished, enters, looks_up, waits, answers_error, leaves, left,
  Env, Machine, Move, caller_moves, worker_moves, worker_step, caller_step, step, run, call, limit,
}
use go_reverse_rpc.Server.Call.Answers.{answer, Fits, first_reply}
use go_reverse_rpc.Server.Call.InTime.{Transmits, Good, step-Good, done-sent, call-Good}
use go_reverse_rpc.Server.Call.Completes.{Safe, Ends, Ends-step, Ends-enter, run-worker_run}

limit-cases :
    {R : Type 0} (reject : Bool) (env : Env)
    → (limit {R = R} reject env ≡ looks_up)
      ⊎ ((q : Response R) × (limit {R = R} reject env ≡ answers_error (swap (some q))))
unfolding limit
limit-cases true env = elim (Bool-cases env.allow) [
  | inl e ↦ inl (ground arith)
  | inr e ↦ inr (error_response status_too_fraquently too_frequently, ground arith)
]
limit-cases false env = elim (Option-cases env.wait) [
  | inl e ↦ inl (ground arith)
  | inr (x, e) ↦ inr (error_response status_request_timeout timeout, ground arith)
]

module _ {R W : Type 0} (s : Server R W) (env : Env) (child : ChildContext R) (r : Response R)
    (total : Transmits child r) (expected : answer s env child ≡ some r) (start : W) where
  abbrev Fine : Machine R W → Type 0
  Fine m = Good s env child r total expected start m m.caller

  abbrev Reaches : Machine R W → Type 0
  Reaches m = (moves : List Move) × All (Fits false) moves × ((run s env moves m).caller ≡ left)

  Reaches-caller : (m : Machine R W) → Reaches (step s env caller_moves m) → Reaches m
  unfolding run
  Reaches-caller m (moves, f, e) = (caller_moves ∷ moves, (tt, f), e)

  next-Fine : (m : Machine R W) → Fine m → Fine (step s env caller_moves m)
  next-Fine m g = step-Good s env child r total expected start caller_moves m tt g

  Reaches-left : (m : Machine R W) → m.caller ≡ left → Reaches m
  unfolding run
  Reaches-left m e = ([], tt, e)

  Reaches-leaves : (m : Machine R W) → m.caller ≡ leaves none → Fine m → Reaches m
  unfolding step caller_step
  Reaches-leaves m e g =
      let g' = subst (Good s env child r total expected start m) e g in
      let done =
        done-sent s env child r total expected start m.ctx m.worker (leaves none) g'.inv refl
          g'.ok.caller_ok.0 g'.ok.caller_ok.1 g'.ok.sent_ok in
      Reaches-caller m (Reaches-left _ (ground arith))

  Reaches-transmit :
      (q : Response R) (m : Machine R W)
      → m.caller ≡ answers_error (transmit (some q))
      → Fine m
      → Reaches m
  unfolding step caller_step
  Reaches-transmit q m e g =
      Reaches-caller m (Reaches-leaves _ (ground (arith, total.1, g.ok.same_child)) (next-Fine m g))

  Reaches-store :
      (q : Response R) (m : Machine R W)
      → m.caller ≡ answers_error (store (some q))
      → Fine m
      → Reaches m
  unfolding step caller_step
  Reaches-store q m e g = Reaches-caller m (Reaches-transmit q _ (ground arith) (next-Fine m g))

  Reaches-swap :
      (q : Response R) (m : Machine R W)
      → m.caller ≡ answers_error (swap (some q))
      → Fine m
      → Reaches m
  unfolding step caller_step
  Reaches-swap q m e g = elim (Bool-cases m.ctx.replyed) [
    | inl up ↦ Reaches-caller m (Reaches-leaves _ (ground arith) (next-Fine m g))
    | inr down ↦ Reaches-caller m (Reaches-store q _ (ground arith) (next-Fine m g))
  ]

  Reaches-workers :
      (n : ℕ) (m : Machine R W) → Reaches (run s env (replicate n worker_moves) m) → Reaches m
  unfolding run
  Reaches-workers zero m h = h
  Reaches-workers (suc n) m h =
      let (moves, f, e) = Reaches-workers n (step s env worker_moves m) h in
      (worker_moves ∷ moves, (tt, f), e)

  workers-Fine : (n : ℕ) (m : Machine R W) → Fine m → Fine (run s env (replicate n worker_moves) m)
  unfolding run
  workers-Fine zero m g = g
  workers-Fine (suc n) m g =
      workers-Fine n (step s env worker_moves m)
        (step-Good s env child r total expected start worker_moves m tt g)

  Reaches-finished : (m : Machine R W) → m.caller ≡ waits → m.worker ≡ finished → Fine m → Reaches m
  unfolding step caller_step
  Reaches-finished m e w g = Reaches-caller m (Reaches-leaves _ (ground arith) (next-Fine m g))

  queued-Safe :
      (program : Program R) (m : Machine R W)
      → m.worker ≡ queued program
      → Fine m
      → Safe m.ctx (first_reply m.ctx.child.method program)
  queued-Safe program m w g = elim (Bool-cases m.ctx.replyed) [
    | inl e ↦ inl e
    | inr e ↦ inr (total.0, ground (arith, g.ok.worker_ok, g.ok.same_child, total.1, expected))
  ]

  Reaches-waits :
      (program : Program R) (m : Machine R W)
      → m.caller ≡ waits
      → m.worker ≡ queued program
      → Fine m
      → Reaches m
  unfolding worker_step
  Reaches-waits program m e w g =
      let name = m.ctx.child.method in
      let (n, done) : Ends name m.ctx m.worker = rw w (
        Ends-step name m.ctx (queued program)
          (Ends-enter name program m.ctx (queued-Safe program m w g))) in
      let same = run-worker_run s env name n m refl in
      Reaches-workers n m (
        Reaches-finished _ (ap (λ (m : Machine R W). m.caller) same ∙ e)
          (ap (λ (m : Machine R W). m.worker) same ∙ done) (workers-Fine n m g))

  Reaches-looks_up : (m : Machine R W) → m.caller ≡ looks_up → Fine m → Reaches m
  unfolding step caller_step
  Reaches-looks_up m e g = elim (Option-cases (lookup m.ctx.child.method s.handler_map)) [
    | inl f ↦ Reaches-caller m (
        Reaches-swap (error_response status_server_error (unhandled_method m.ctx.child.method)) _
          (ground arith) (next-Fine m g))
    | inr (hdl, f) ↦
        Reaches-caller m
          (Reaches-waits (hdl.method m.ctx.child) _ (ground arith) (ground arith) (next-Fine m g))
  ]

  Reaches-enters : (m : Machine R W) → m.caller ≡ enters → Fine m → Reaches m
  unfolding step caller_step
  Reaches-enters m e g = elim (limit-cases {R = R} s.options.limiter_reject env) [
    | inl f ↦ Reaches-caller m (Reaches-looks_up _ (ground (arith, f)) (next-Fine m g))
    | inr (q, f) ↦ Reaches-caller m (Reaches-swap q _ (ground (arith, f)) (next-Fine m g))
  ]

-- Let the call's answer be a response that is not nil, and let the transport answer it. Then
-- there is a schedule without a timeout on which `Call` returns.
pub call_returns :
    {R W : Type 0} (s : Server R W) (env : Env) (child : ChildContext R) (r : Response R) (w : W)
    → Transmits child r
    → answer s env child ≡ some r
    → (moves : List Move) × All (Fits false) moves
      × ((run s env moves (call s env (new_request_context child) w)).caller ≡ left)
unfolding call
call_returns s env child r w total expected =
    let start = s.telemetry.start_span (lit "RRPC.Server.Call " ++ child.method) w in
    Reaches-enters s env child r total expected start (call s env (new_request_context child) w)
      refl (call-Good s env child r total expected start w refl)
