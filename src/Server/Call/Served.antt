-- ===== src/Server/Call/Served.antt =====
-- What a call sends and how it ends: with and without a timeout of the handler.
use go_reverse_rpc.Base.{◌≡◌, refl, ◌⊎◌, inl, inr, true, Option, List, [], ◌∷◌, All}
use go_reverse_rpc.Context.{Response, ChildContext, new_request_context}
use go_reverse_rpc.Server.{Server}
use go_reverse_rpc.Server.Call.{Env, Move, run, call}
use go_reverse_rpc.Server.Call.Answers.{answer, late_response, Fits, run-Ok, call-Ok}

Fits-any : (moves : List Move) → All (Fits true) moves
Fits-any [] = tt
Fits-any (move ∷ moves) = (tt, Fits-any moves)

module _ {R W : Type 0} (s : Server R W) (env : Env) (child : ChildContext R) where
  -- Under every schedule, timeouts included, each response that reaches the transport is the one
  -- that the limiter, the handler map and the handler's first reply call for, or the report of
  -- the pool's error.
  pub run_answers :
      (moves : List Move) (w : W)
      → All
          (λ res. (res ≡ answer s env child) ⊎ (res ≡ late_response env))
          (run s env moves (call s env (new_request_context child) w)).ctx.sent
  unfolding call
  run_answers moves w =
      let P =
        λ (res : Option (Response R)). (res ≡ answer s env child) ⊎ (res ≡ late_response env) in
      (run-Ok P true s env child moves _ (inr refl) (Fits-any moves)
        (call-Ok P true s env child w (inl refl))).sent_ok
