-- ===== src/Examples/Math/Calls.antt =====
-- examples/basic/: what the server that calculates answers.
use go_reverse_rpc.Base.{
  ℤ, ◌≡◌, refl, true, Option, some, Bytes, bytes_eq, ℕ_eq, ℕ_discrete, lit, arith, if◌then◌else◌,
}
use go_reverse_rpc.Base.Dict.{insert, lookup}
use go_reverse_rpc.Errors.{other, Result, ok, err}
use go_reverse_rpc.Context.{
  Response, ChildContext, returned, ok_response, error_response, status_client_error,
}
use go_reverse_rpc.Server.{Telemetry, new_server, register, set_telemetry}
use go_reverse_rpc.Server.Call.{Env}
use go_reverse_rpc.Server.Call.Answers.{answer, first_reply}
use go_reverse_rpc.Examples.Math.{
  MathRequest, Floats, reply_result, reply_client_error, with_request, math_handler, divide_program,
  register_math_operations, math_server,
}

pub data Operation : Type 0 where
  addition subtraction multiplication division : Operation

-- The method of an operation.
abbrev pub method_name : Operation → Bytes
method_name addition = lit "add"
method_name subtraction = lit "subtract"
method_name multiplication = lit "multiply"
method_name division = lit "divide"

module _ {F : Type 0} (floats : Floats F) where
  -- What an operation gives.
  abbrev pub calculated : Operation → MathRequest F → Result F
  calculated addition req = ok (floats.add req.a req.b)
  calculated subtraction req = ok (floats.subtract req.a req.b)
  calculated multiplication req = ok (floats.multiply req.a req.b)
  calculated division req =
      if floats.is_zero req.b
      then err (other (lit "division by zero"))
      else ok (floats.divide req.a req.b)

  abbrev pub responded : Result F → Response (Result Bytes)
  responded (ok x) = ok_response (some (floats.marshalled (record { result = x })))
  responded (err e) = error_response status_client_error e

  first_reply-divide_program :
      (name : Bytes) (req : MathRequest F)
      → first_reply name (divide_program floats req) ≡ some (responded (calculated division req))
  unfolding divide_program reply_result reply_client_error
  first_reply-divide_program name req = ground arith

  pub answer-math_server :
      {W : Type 0} (uuid : Bytes) (cpus : ℤ) (noop : Telemetry W) (tel : Result (Telemetry W))
      (env : Env) (op : Operation) (params : Option Bytes) (c : ChildContext (Result Bytes))
      → env.allow ≡ true
      → c.method ≡ method_name op
      → c.bind floats.target ≡ returned (ok params)
      → answer (math_server floats uuid cpus noop tel) env c
        ≡ some (responded (calculated op (floats.filled params)))
  unfolding math_server register_math_operations register insert lookup bytes_eq ℕ_discrete
      math_handler with_request reply_result reply_client_error divide_program new_server
      set_telemetry
  answer-math_server uuid cpus noop tel env addition params c h m b = rw h (rw m (rw b refl))
  answer-math_server uuid cpus noop tel env subtraction params c h m b = rw h (rw m (rw b refl))
  answer-math_server uuid cpus noop tel env multiplication params c h m b = rw h (rw m (rw b refl))
  answer-math_server uuid cpus noop tel env division params c h m b =
      rw h (rw m (rw b (first_reply-divide_program (lit "divide") (floats.filled params))))
