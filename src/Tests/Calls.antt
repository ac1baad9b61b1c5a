-- ===== src/Tests/Calls.antt =====
-- The server, its options and its calls, at a server with one method.
use go_reverse_rpc.Base.{
  ℕ, pos, ◌≡◌, ◌≢◌, refl, ◌⊎◌, true, false, none, some, List, [], ◌∷◌, ◌++◌, Bytes, bytes_eq,
  ℕ_discrete, lit, All, ℕ_eq,
}
use go_reverse_rpc.Base.Dict.{lookup, insert}
use go_reverse_rpc.Errors.{other, ok}
use go_reverse_rpc.Context.{
  Response, returned, ChildContext, new_request_context, get_response, ok_response, error_response,
  status_server_error,
}
use go_reverse_rpc.Context.Replies.{reply_all, all_false, reply_all_first}
use go_reverse_rpc.Server.Options.{with_limiter_reject}
use go_reverse_rpc.Server.{
  returns, replies, Handler, Telemetry, Server, new_server, register, on_after_response,
}
use go_reverse_rpc.Server.Call.{left, crashed, Env, Move, caller_moves, worker_moves, run, call}
use go_reverse_rpc.Server.Call.AtMostOnce.{run_at_most_once}
use go_reverse_rpc.Server.Call.Answers.{answer, late_response, Fits}
use go_reverse_rpc.Server.Call.Served.{run_answers}
use go_reverse_rpc.Server.Call.InTime.{Transmits, run_no_crash}
use go_reverse_rpc.Server.Call.Returns.{call_returns}
use go_reverse_rpc.Server.Call.Race.{late_schedule, late_reply_crashes}

-- A transport that answers `true`.
abbrev pub child : ChildContext ℕ
child = record {
  id = record { num = 3; str = [] };
  method = lit "add";
  reply_desc = [];
  bind = λ target. returned (ok none);
  reply = λ res. returned true;
}

abbrev pub seven : Response ℕ
seven = ok_response (some 7)

abbrev failure : Response ℕ
failure = error_response status_server_error (other (lit "late"))

-- A handler that replies twice.
abbrev twice : Handler ℕ
twice = record {
  method = λ child. replies (some seven) (λ sent. replies (some failure) (λ again. returns));
  timeout = pos 0;
}

-- The world is the log of what telemetry and callbacks see.
abbrev telemetry : Telemetry (List Bytes)
telemetry = record {
  start_span = λ name log. log ++ name ∷ [];
  end_span = λ log. log ++ lit "end" ∷ [];
  record_request = λ duration name status error log. log ++ status ∷ [];
}

server : Server ℕ (List Bytes)
unfolding new_server register on_after_response with_limiter_reject insert
server =
    on_after_response (λ e log. log ++ lit "event" ∷ [])
      (register (lit "add") twice
        (new_server (lit "id") (pos 4) telemetry (with_limiter_reject ∷ [])))

abbrev pub env : Env
env = record { allow = true; wait = none; elapsed = 1700000; job_error = other (lit "timeout") }

-- The handler's two replies run to their end before the caller goes on.
abbrev pub in_time : List Move
in_time =
    caller_moves ∷ caller_moves ∷ worker_moves ∷ worker_moves ∷ worker_moves ∷ worker_moves
    ∷ worker_moves ∷ worker_moves ∷ worker_moves ∷ worker_moves ∷ caller_moves ∷ caller_moves ∷ []

pub in_time-Fits : All (Fits false) in_time
in_time-Fits = (tt, (tt, (tt, (tt, (tt, (tt, (tt, (tt, (tt, (tt, (tt, (tt, tt))))))))))))

answer-seven : answer server env child ≡ some seven
unfolding server lookup bytes_eq ℕ_discrete
answer-seven = refl

pub seven-Transmits : Transmits child seven
seven-Transmits = (true, refl)

reply_all_first_example :
    let (c, answers) =
      reply_all (some seven ∷ some failure ∷ none ∷ []) (new_request_context child) in
    (c.sent ≡ some seven ∷ [])
    × (get_response c ≡ some seven)
    × (answers ≡ returned true ∷ all_false (some failure ∷ none ∷ []))
reply_all_first_example = reply_all_first child (some seven) (some failure ∷ none ∷ [])

run_at_most_once_example :
    let m = run server env in_time (call server env (new_request_context child) []) in
    (m.ctx.sent ≡ []) ⊎ (m.ctx.sent ≡ get_response m.ctx ∷ [])
run_at_most_once_example = run_at_most_once server env in_time child []

run_answers_example :
    All
      (λ res. (res ≡ answer server env child) ⊎ (res ≡ late_response env))
      (run server env late_schedule (call server env (new_request_context child) [])).ctx.sent
run_answers_example = run_answers server env child late_schedule []

run_no_crash_example :
    (run server env in_time (call server env (new_request_context child) [])).caller
    ≢ crashed (lit "nil")
run_no_crash_example =
    run_no_crash server env child seven in_time [] (lit "nil") seven-Transmits answer-seven
      in_time-Fits

call_returns_example :
    (moves : List Move) × All (Fits false) moves
    × ((run server env moves (call server env (new_request_context child) [])).caller ≡ left)
call_returns_example = call_returns server env child seven [] seven-Transmits answer-seven

late_reply_crashes_example :
    let m = run server env late_schedule (call server env (new_request_context child) []) in
    (m.caller ≡ crashed (lit "invalid memory address or nil pointer dereference"))
    × (m.ctx.sent ≡ [])
    × (m.world
        ≡ server.telemetry.end_span
            (server.telemetry.start_span (lit "RRPC.Server.Call " ++ lit "add") []))
unfolding server lookup bytes_eq ℕ_discrete
late_reply_crashes_example =
    late_reply_crashes server env child twice (some seven)
      (λ sent. replies (some failure) (λ again. returns)) [] refl refl refl refl
