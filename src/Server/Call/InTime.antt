-- ===== src/Server/Call/InTime.antt =====
-- A call whose handler is in time: it sends its answer, emits one event, and does not crash.
use go_reverse_rpc.Base.{
  ◌≡◌, ◌≢◌, refl, sym, subst, Bool, true, false, Option, none, some, List, [], ◌∷◌, ◌++◌, Bytes,
  arith, All, length, lit,
}
use go_reverse_rpc.Context.{
  Response, returned, ChildContext, RequestContext, new_request_context, get_response,
}
use go_reverse_rpc.Server.{Server, emit_after_response, round_millisecond, status_label}
use go_reverse_rpc.Server.Call.{
  Worker, Phase, swap, store, transmit, Caller, enters, looks_up, waits, answers_error, leaves,
  left, crashed, Env, Machine, Move, caller_moves, worker_moves, times_out, step, caller_step, run,
  call,
}
use go_reverse_rpc.Server.Call.AtMostOnce.{Inv, StoredSent, step-Inv, call-Inv, held_caller}
use go_reverse_rpc.Server.Call.Answers.{answer, Fits, Idle, Ok, step-Ok, call-Ok}

module _ {R : Type 0} where
  one_sent :
      (kept res : Option (Response R)) (sent : List (Option (Response R)))
      → length sent ≡ 1
      → All (λ r. r ≡ res) sent
      → StoredSent kept sent
      → (sent ≡ res ∷ []) × (kept ≡ res)
  one_sent kept res [] h a k = absurd (omega arith)
  one_sent kept res (r ∷ []) h a k = ground arith
  one_sent kept res (r ∷ r' ∷ sent) h a k = absurd (omega arith)

  -- The transport answers this response.
  abbrev pub Transmits : ChildContext R → Response R → Type 0
  Transmits child r = (sent : Bool) × (child.reply (some r) ≡ returned sent)

  abbrev pub IsGiven : Phase R → Type 0
  IsGiven (swap (some r)) = Unit
  IsGiven (store (some r)) = Unit
  IsGiven (transmit (some r)) = Unit
  IsGiven _ = ⊥

  abbrev pub Calm : Caller R → Type 0
  Calm (answers_error phase) = IsGiven phase
  Calm (leaves (some value)) = ⊥
  Calm (crashed value) = ⊥
  Calm _ = Unit

-- What the deferred function makes of the world for a response `r`: the request is recorded, each
-- callback gets the event, and the span ends.
abbrev pub after_leaving : {R W : Type 0} → Server R W → Env → Bytes → Response R → W → W
after_leaving s env name r w =
    let duration = round_millisecond env.elapsed in
    let recorded = s.telemetry.record_request duration name (status_label (some r)) r.error w in
    s.telemetry.end_span
      (emit_after_response s (record { duration = duration; res = some r }) recorded)

module _ {R W : Type 0} (s : Server R W) (env : Env) (child : ChildContext R) (r : Response R)
    (total : Transmits child r) (expected : answer s env child ≡ some r) (start : W) where
  abbrev pub Worlds : Caller R → W → Type 0
  Worlds left w = w ≡ after_leaving s env child.method r start
  Worlds _ w = w ≡ start

  abbrev pub IsAnswer : Option (Response R) → Type 0
  IsAnswer res = res ≡ answer s env child

  pub record Good (m : Machine R W) (x : Caller R) : Type 0 where
    pub inv : Inv m.ctx x m.worker
    pub ok : Ok IsAnswer false s env child m x
    pub calm : Calm x
    pub worlds : Worlds x m.world

  pub done-sent :
      (c : RequestContext R) (w : Worker R) (x : Caller R)
      → Inv c x w
      → held_caller x ≡ 0
      → c.replyed ≡ true
      → Idle w
      → All IsAnswer c.sent
      → (c.sent ≡ some r ∷ []) × (c.res ≡ some r)
  done-sent c w x v h b i a =
      ground (arith, one_sent c.res (answer s env child) c.sent (ground arith) a v.sent_stored)

  caller_step-Calm :
      (x : Caller R) (m : Machine R W)
      → m.caller ≡ x
      → Good m x
      → Calm (caller_step s env x m).caller
        × Worlds (caller_step s env x m).caller (caller_step s env x m).world
  unfolding caller_step
  caller_step-Calm enters m e g = ground arith
  caller_step-Calm looks_up m e g = ground arith
  caller_step-Calm waits m e g = ground arith
  caller_step-Calm (answers_error (swap (some q))) m e g = ground arith
  caller_step-Calm (answers_error (store (some q))) m e g = ground arith
  caller_step-Calm (answers_error (transmit (some q))) m e g = ground (arith, total.1)
  caller_step-Calm (answers_error (swap none)) m e g = absurd g.calm
  caller_step-Calm (answers_error (store none)) m e g = absurd g.calm
  caller_step-Calm (answers_error (transmit none)) m e g = absurd g.calm
  caller_step-Calm (leaves none) m e g = ground (
    arith,
    done-sent m.ctx m.worker (leaves none) g.inv refl g.ok.caller_ok.0 g.ok.caller_ok.1
        g.ok.sent_ok,
  )
  caller_step-Calm (leaves (some value)) m e g = absurd g.calm
  caller_step-Calm left m e g = ground arith
  caller_step-Calm (crashed value) m e g = absurd g.calm

  step-Calm :
      (move : Move) (m : Machine R W)
      → Fits false move
      → Good m m.caller
      → Calm (step s env move m).caller
        × Worlds (step s env move m).caller (step s env move m).world
  unfolding step
  step-Calm caller_moves m f g = caller_step-Calm m.caller m refl g
  step-Calm worker_moves m f g = (g.calm, g.worlds)
  step-Calm times_out m f g = absurd f

  pub step-Good :
      (move : Move) (m : Machine R W)
      → Fits false move
      → Good m m.caller
      → Good (step s env move m) (step s env move m).caller
  step-Good move m f g = record {
    inv = step-Inv s env move m g.inv;
    ok = step-Ok IsAnswer false s env child move m tt f g.ok;
    calm = (step-Calm move m f g).0;
    worlds = (step-Calm move m f g).1;
  }

  pub run-Good :
      (moves : List Move) (m : Machine R W)
      → All (Fits false) moves
      → Good m m.caller
      → Good (run s env moves m) (run s env moves m).caller
  unfolding run
  run-Good [] m f g = g
  run-Good (move ∷ moves) m f g = run-Good moves (step s env move m) f.1 (step-Good move m f.0 g)

  abbrev pub begun : W → Machine R W
  begun w = call s env (new_request_context child) w

  call-worlds :
      (w : W)
      → start ≡ s.telemetry.start_span (lit "RRPC.Server.Call " ++ child.method) w
      → (begun w).world ≡ start
  unfolding call new_request_context
  call-worlds w e = sym e

  pub call-Good :
      (w : W)
      → start ≡ s.telemetry.start_span (lit "RRPC.Server.Call " ++ child.method) w
      → Good (begun w) enters
  unfolding call
  call-Good w e = record {
    inv = call-Inv s env child w;
    ok = call-Ok IsAnswer false s env child w refl;
    calm = tt;
    worlds = call-worlds w e;
  }

  run-begun-Good :
      (moves : List Move) (w : W)
      → start ≡ s.telemetry.start_span (lit "RRPC.Server.Call " ++ child.method) w
      → All (Fits false) moves
      → Good (run s env moves (begun w)) (run s env moves (begun w)).caller
  unfolding call
  run-begun-Good moves w e f = run-Good moves (begun w) f (call-Good w e)

  not_crashed : (m : Machine R W) (value : Bytes) → Good m m.caller → m.caller ≢ crashed value
  not_crashed m value g e = (subst (Good m) e g).calm

  left-Good :
      (m : Machine R W)
      → Good m m.caller
      → m.caller ≡ left
      → (m.ctx.sent ≡ some r ∷ [])
        × (get_response m.ctx ≡ some r)
        × (m.world ≡ after_leaving s env child.method r start)
  unfolding get_response
  left-Good m g e =
      let g' = subst (Good m) e g in
      let done =
        done-sent m.ctx m.worker left g'.inv refl g'.ok.caller_ok.0 g'.ok.caller_ok.1
          g'.ok.sent_ok in
      (done.0, done.1, g'.worlds)

module _ {R W : Type 0} (s : Server R W) (env : Env) (child : ChildContext R) (r : Response R) where
  abbrev span : W → W
  span = s.telemetry.start_span (lit "RRPC.Server.Call " ++ child.method)

  -- Let the call's answer be a response that is not nil, and let the transport answer it. Then
  -- `Call` panics on no schedule in which the handler does not time out.
  pub run_no_crash :
      (moves : List Move) (w : W) (value : Bytes)
      → Transmits child r
      → answer s env child ≡ some r
      → All (Fits false) moves
      → (run s env moves (call s env (new_request_context child) w)).caller ≢ crashed value
  run_no_crash moves w value total expected f =
      not_crashed s env child r total expected (span w) _ value
        (run-begun-Good s env child r total expected (span w) moves w refl f)

  pub run_in_time :
      (moves : List Move) (w : W)
      → Transmits child r
      → answer s env child ≡ some r
      → All (Fits false) moves
      → (run s env moves (call s env (new_request_context child) w)).caller ≡ left
      → let m = run s env moves (call s env (new_request_context child) w) in
        (m.ctx.sent ≡ some r ∷ [])
        × (get_response m.ctx ≡ some r)
        × (m.world ≡ after_leaving s env child.method r (span w))
  run_in_time moves w total expected f e =
      left-Good s env child r total expected (span w) _
        (run-begun-Good s env child r total expected (span w) moves w refl f) e
