-- ===== src/Server/Call/AtMostOnce.antt =====
-- Under every schedule of the caller and the worker, one reply at most reaches the transport.
use go_reverse_rpc.Base.{
  ℕ, ◌+◌, ◌≤◌, ◌≡◌, refl, ◌⊎◌, inl, inr, Bool, true, false, Option, List, [], ◌∷◌, Bytes, arith,
  length,
}
use go_reverse_rpc.Context.{
  Response, ChildContext, RequestContext, new_request_context, get_response,
}
use go_reverse_rpc.Server.{Server, Program}
use go_reverse_rpc.Server.Call.{
  Phase, swap, store, transmit, Worker, absent, calls, finished, Caller, enters, looks_up, waits,
  answers_error, leaves, left, crashed, Env, Machine, Move, caller_moves, worker_moves, times_out,
  worker_step, caller_step, step, run, call, enter,
}

abbrev pub up : Bool → ℕ
up true = 1
up false = 0

module _ {R : Type 0} where
  -- 1 from the compare-and-swap that succeeds to the call of the transport.
  abbrev held : Phase R → ℕ
  held (swap res) = 0
  held (store res) = 1
  held (transmit res) = 1

  abbrev pub held_caller : Caller R → ℕ
  held_caller (answers_error phase) = held phase
  held_caller _ = 0

  abbrev pub held_worker : Worker R → ℕ
  held_worker (calls phase k) = held phase
  held_worker _ = 0

  abbrev Stored : Option (Response R) → Phase R → Type 0
  Stored kept (transmit res) = kept ≡ res
  Stored kept _ = Unit

  abbrev StoredCaller : Option (Response R) → Caller R → Type 0
  StoredCaller kept (answers_error phase) = Stored kept phase
  StoredCaller kept _ = Unit

  abbrev StoredWorker : Option (Response R) → Worker R → Type 0
  StoredWorker kept (calls phase k) = Stored kept phase
  StoredWorker kept _ = Unit

  abbrev pub StoredSent : Option (Response R) → List (Option (Response R)) → Type 0
  StoredSent kept [] = Unit
  StoredSent kept (res ∷ sent) = kept ≡ res

  -- The worker has no job before the handler is looked up.
  abbrev Early : Caller R → Worker R → Type 0
  Early enters w = w ≡ absent
  Early looks_up w = w ≡ absent
  Early _ w = Unit

  -- The flag is up exactly if one reply is sent or on its way, and that reply is the one stored.
  pub record Inv (c : RequestContext R) (x : Caller R) (w : Worker R) : Type 0 where
    pub one : length c.sent + held_caller x + held_worker w ≡ up c.replyed
    pub caller_stored : StoredCaller c.res x
    pub worker_stored : StoredWorker c.res w
    pub sent_stored : StoredSent c.res c.sent
    pub early : Early x w

  enter-Inv :
      (name : Bytes) (program : Program R) (c : RequestContext R) (x : Caller R)
      → Inv c x finished
      → Inv c x (enter name program)
  unfolding enter
  enter-Inv name program c x v = ground arith

  worker_step-Inv :
      (name : Bytes) (w : Worker R) (c : RequestContext R) (x : Caller R)
      → Inv c x w
      → Inv (worker_step name w c).0 x (worker_step name w c).1
  unfolding worker_step
  worker_step-Inv name w c x v = ground arith

  pub none_or_stored :
      (kept : Option (Response R)) (sent : List (Option (Response R)))
      → length sent ≤ 1
      → StoredSent kept sent
      → (sent ≡ []) ⊎ (sent ≡ kept ∷ [])
  none_or_stored kept [] h e = inl refl
  none_or_stored kept (res ∷ []) h e = inr (ground arith)
  none_or_stored kept (res ∷ other ∷ sent) h e = absurd (omega arith)

  Inv-none_or_stored :
      (c : RequestContext R) (x : Caller R) (w : Worker R)
      → Inv c x w
      → (c.sent ≡ []) ⊎ (c.sent ≡ c.res ∷ [])
  Inv-none_or_stored c x w v = none_or_stored c.res c.sent (ground arith) v.sent_stored

module _ {R W : Type 0} (s : Server R W) (env : Env) where
  abbrev pub InvMachine : Machine R W → Type 0
  InvMachine m = Inv m.ctx m.caller m.worker

  caller_step-Inv :
      (x : Caller R) (m : Machine R W)
      → m.caller ≡ x
      → Inv m.ctx x m.worker
      → InvMachine (caller_step s env x m)
  unfolding caller_step
  caller_step-Inv enters m e v = ground arith
  caller_step-Inv looks_up m e v = ground arith
  caller_step-Inv waits m e v = ground arith
  caller_step-Inv (answers_error phase) m e v = ground arith
  caller_step-Inv (leaves panic) m e v = ground arith
  caller_step-Inv left m e v = rw e v
  caller_step-Inv (crashed value) m e v = rw e v

  pub step-Inv : (move : Move) (m : Machine R W) → InvMachine m → InvMachine (step s env move m)
  unfolding step
  step-Inv caller_moves m v = caller_step-Inv m.caller m refl v
  step-Inv worker_moves m v = worker_step-Inv m.ctx.child.method m.worker m.ctx m.caller v
  step-Inv times_out m v = ground arith

  run-Inv : (moves : List Move) (m : Machine R W) → InvMachine m → InvMachine (run s env moves m)
  unfolding run
  run-Inv [] m v = v
  run-Inv (move ∷ moves) m v = run-Inv moves (step s env move m) (step-Inv move m v)

  pub call-Inv :
      (child : ChildContext R) (w : W)
      → Inv (call s env (new_request_context child) w).ctx enters absent
  unfolding call new_request_context
  call-Inv child w = ground arith

  pub run-call-Inv :
      (moves : List Move) (child : ChildContext R) (w : W)
      → InvMachine (run s env moves (call s env (new_request_context child) w))
  unfolding call new_request_context
  run-call-Inv moves child w =
      run-Inv moves (call s env (new_request_context child) w) (ground arith)

  -- Whatever the caller, the worker and the timeout do in whatever order, the transport gets no
  -- reply or one, and that one is the response which `GetResponse` gives.
  pub run_at_most_once :
      (moves : List Move) (child : ChildContext R) (w : W)
      → let m = run s env moves (call s env (new_request_context child) w) in
        (m.ctx.sent ≡ []) ⊎ (m.ctx.sent ≡ get_response m.ctx ∷ [])
  unfolding get_response
  run_at_most_once moves child w = Inv-none_or_stored _ _ _ (run-call-Inv moves child w)
