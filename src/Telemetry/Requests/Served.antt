-- ===== src/Telemetry/Requests/Served.antt =====
-- A call of the server, as enabled telemetry records it.
use go_reverse_rpc.Base.{
  ℕ, suc, ◌+◌, ◌*◌, ◌/◌, ◌≤◌, ◌≡◌, refl, ◌∙◌, Option, none, some, List, [], ◌∷◌, ◌++◌, Bytes, lit,
  arith, All, true, false, format_int,
}
use go_reverse_rpc.Base.Dict.{Dict}
use go_reverse_rpc.Errors.{Error, message}
use go_reverse_rpc.Server.Rounding.{round_millisecond_bounds}
use go_reverse_rpc.Context.{Response, ChildContext, new_request_context}
use go_reverse_rpc.Server.{Server, round_millisecond, status_label, emit_after_response}
use go_reverse_rpc.Server.Call.{left, Env, Move, run, call}
use go_reverse_rpc.Server.Call.Answers.{answer, Fits}
use go_reverse_rpc.Server.Call.InTime.{Transmits, run_in_time}
use go_reverse_rpc.Telemetry.{TelemetryImpl}
use go_reverse_rpc.Telemetry.Requests.{Recorded, count_error, telemetry}

-- What the counter got, by the error of the answer.
errors_recorded :
    (e : Option Error) (attrs : Dict Bytes Bytes) (errors : List (Dict Bytes Bytes))
    → count_error e attrs errors
      ≡ elim e [ none ↦ errors | some e ↦ (attrs ++ (lit "error", message e) ∷ []) ∷ errors ]
errors_recorded none attrs errors = refl
errors_recorded (some e) attrs errors = refl

module _ {R : Type 0} (s : Server R Recorded) (env : Env) (child : ChildContext R) (r : Response R)
    (t : TelemetryImpl) where
  -- With enabled telemetry and no callbacks, let the call's answer be a response that is not nil,
  -- let the transport answer it, and let the handler not time out. When `Call` has returned, it has
  -- recorded one duration, within half a millisecond of the time that passed, under the method and
  -- the answer's status; one error, under these and the error's text, if the answer has one, and
  -- otherwise none; and it has ended its own span.
  pub run_recorded :
      (moves : List Move) (m : Recorded)
      → s.telemetry ≡ telemetry t
      → t.enabled ≡ true
      → s.cb_list ≡ []
      → Transmits child r
      → answer s env child ≡ some r
      → All (Fits false) moves
      → (run s env moves (call s env (new_request_context child) m)).caller ≡ left
      → let m' = (run s env moves (call s env (new_request_context child) m)).world in
        (milliseconds : ℕ) × (milliseconds * 1000000 ≤ env.elapsed + 500000)
        × (env.elapsed ≤ milliseconds * 1000000 + 500000)
        × (m' ≡ record m {
          durations =
              record {
                milliseconds = milliseconds;
                attributes =
                    (lit "method", child.method) ∷ (lit "status", format_int r.status) ∷ [];
              }
              ∷ m.durations;
          errors = elim r.error [
            | none ↦ m.errors
            | some e ↦
                ((lit "method", child.method)
                  ∷ (lit "status", format_int r.status)
                  ∷ (lit "error", message e)
                  ∷ [])
                ∷ m.errors
          ];
          next = suc m.next;
          span = some m.next;
          ended = m.next ∷ m.ended;
        })
  unfolding telemetry status_label emit_after_response
  run_recorded moves m same on quiet total expected f l =
      let bounds = round_millisecond_bounds env.elapsed in
      let worlds = (run_in_time s env child r moves m total expected f l).2 in
      (
        round_millisecond env.elapsed / 1000000,
        omega (arith, bounds),
        omega (arith, bounds),
        worlds
            ∙ ground (
              arith,
              errors_recorded r.error
                  ((lit "method", child.method) ∷ (lit "status", format_int r.status) ∷ [])
                  m.errors,
            ),
      )
