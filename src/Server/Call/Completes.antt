-- ===== src/Server/Call/Completes.antt =====
-- Every handler's job ends, whatever it replies and however it ends, and then `Call` returns.
use go_reverse_rpc.Base.{
  ℕ, zero, suc, ◌≡◌, refl, ap, ◌∙◌, ◌⊎◌, inl, inr, Bool-cases, Bool, true, false, Option, ◌∷◌,
  Bytes, arith, replicate, bytes_eq,
}
use go_reverse_rpc.Context.{Response, returned, ChildContext, RequestContext}
use go_reverse_rpc.Server.{Server, Program, returns, panics, replies}
use go_reverse_rpc.Server.Call.{
  swap, store, transmit, Cont, in_method, after_method, in_recover, Worker, calls, finished, Env,
  Machine, worker_moves, advance, enter, resume, worker_next, worker_step, step, run,
}
use go_reverse_rpc.Server.Call.Answers.{worker_step-child, first_reply}

module _ {R : Type 0} where
  -- The flag is up, or the transport answers `res`.
  abbrev pub Safe : RequestContext R → Option (Response R) → Type 0
  Safe c res = (c.replyed ≡ true) ⊎ ((sent : Bool) × (c.child.reply res ≡ returned sent))

module _ {R : Type 0} (name : Bytes) where
  pub worker_run : ℕ → RequestContext R → Worker R → RequestContext R × Worker R
  worker_run zero c w = (c, w)
  worker_run (suc n) c w = let (c', w') = worker_step name w c in worker_run n c' w'

  abbrev pub Ends : RequestContext R → Worker R → Type 0
  Ends c w = (n : ℕ) × ((worker_run n c w).1 ≡ finished)

  Ends-finished : (c : RequestContext R) → Ends c finished
  unfolding worker_run
  Ends-finished c = (0, refl)

  pub Ends-step :
      (c : RequestContext R) (w : Worker R)
      → Ends (worker_step name w c).0 (worker_step name w c).1
      → Ends c w
  unfolding worker_run
  Ends-step c w (n, e) = (suc n, e)

  Ends-via :
      (c : RequestContext R) (w : Worker R) {c' : RequestContext R} {w' : Worker R}
      → worker_step name w c ≡ (c', w')
      → Ends c' w'
      → Ends c w
  Ends-via c w e h = Ends-step c w (rw e h)

  -- With the flag up, the job ends from the answer of a `Reply` on.
  abbrev GoesOn : Cont R → Type 0
  GoesOn k =
      (c : RequestContext R) → c.replyed ≡ true → (ok : Bool) → Ends c (resume name k (returned ok))

  module _ (res : Option (Response R)) (k : Cont R) (rest : GoesOn k) where
    Ends-transmit :
        (c : RequestContext R) (sent : Bool)
        → c.replyed ≡ true
        → c.child.reply res ≡ returned sent
        → Ends c (calls (transmit res) k)
    unfolding worker_step advance worker_next
    Ends-transmit c sent e t =
        Ends-via c _ (ground arith) (rest (record c { sent = res ∷ c.sent }) e sent)

    Ends-store :
        (c : RequestContext R) (sent : Bool)
        → c.replyed ≡ true
        → c.child.reply res ≡ returned sent
        → Ends c (calls (store res) k)
    unfolding worker_step advance worker_next
    Ends-store c sent e t = Ends-step c _ (Ends-transmit (record c { res = res }) sent e t)

    Ends-replyed : (c : RequestContext R) → c.replyed ≡ true → Ends c (calls (swap res) k)
    unfolding worker_step advance worker_next
    Ends-replyed c e = Ends-via c _ (ground arith) (rest c e false)

    Ends-swap : (c : RequestContext R) → Safe c res → Ends c (calls (swap res) k)
    unfolding worker_step advance worker_next
    Ends-swap c (inl e) = Ends-replyed c e
    Ends-swap c (inr (sent, t)) = elim (Bool-cases c.replyed) [
      | inl e ↦ Ends-replyed c e
      | inr e ↦ Ends-via c _ (ground arith) (Ends-store (record c { replyed = true }) sent refl t)
    ]

  recover-GoesOn : GoesOn in_recover
  unfolding resume
  recover-GoesOn c e ok = Ends-finished c

  last-GoesOn : GoesOn after_method
  unfolding resume
  last-GoesOn c e ok = Ends-finished c

  pub Ends-enter :
      (program : Program R) (c : RequestContext R)
      → Safe c (first_reply name program)
      → Ends c (enter name program)
  unfolding enter resume
  Ends-enter returns c t = Ends-swap _ after_method last-GoesOn c t
  Ends-enter (panics value) c t = Ends-swap _ in_recover recover-GoesOn c t
  Ends-enter (replies res next) c t =
      Ends-swap res (in_method next) (λ c e ok. Ends-enter (next ok) c (inl e)) c t

module _ {R W : Type 0} (s : Server R W) (env : Env) (name : Bytes) where
  abbrev pub after_worker : RequestContext R × Worker R → Machine R W → Machine R W
  after_worker out m = record m { ctx = out.0; worker = out.1 }

  worker_moves-step :
      (m : Machine R W)
      → m.ctx.child.method ≡ name
      → step s env worker_moves m ≡ after_worker (worker_step name m.worker m.ctx) m
  unfolding step
  worker_moves-step m e = ap (λ n. after_worker (worker_step n m.worker m.ctx) m) e

  -- A row of worker moves is a run of the worker alone.
  pub run-worker_run :
      (n : ℕ) (m : Machine R W)
      → m.ctx.child.method ≡ name
      → run s env (replicate n worker_moves) m ≡ after_worker (worker_run name n m.ctx m.worker) m
  unfolding run worker_run
  run-worker_run zero m e = refl
  run-worker_run (suc n) m e =
      ap (run s env (replicate n worker_moves)) (worker_moves-step m e)
      ∙ run-worker_run n (after_worker (worker_step name m.worker m.ctx) m) (
          ap (λ (child : ChildContext R). child.method) (worker_step-child name m.worker m.ctx) ∙ e)
