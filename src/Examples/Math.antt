-- ===== src/Examples/Math.antt =====
-- examples/basic/types.go, examples/basic/server/main.go: a JSON server that calculates.
pub mod Calls
pub mod Topics
pub mod WholeCalls
use go_reverse_rpc.Base.{ℤ, pos, Bool, Option, none, some, [], Bytes, lit, if◌then◌else◌}
use go_reverse_rpc.Errors.{Error, wrapped, other, Result, ok, err}
use go_reverse_rpc.Context.{
  Outcome, returned, panicked, ChildContext, ok_response, error_response, status_client_error,
}
use go_reverse_rpc.Server.{
  Program, returns, panics, replies, Handler, Telemetry, Server, new_server, register,
  set_telemetry,
}

-- `MathRequest`, over the numbers `F` of float64.
pub record MathRequest (F : Type 0) : Type 0 where
  pub a : F
  pub b : F

-- `MathResponse`
pub record MathResponse (F : Type 0) : Type 0 where
  pub result : F

-- The arithmetic of float64, and encoding/json at the two types: what the request variable is
-- before it is filled, what the params fill it with, and what a response is marshalled to.
pub record Floats (F : Type 0) : Type 0 where
  pub add : F → F → F
  pub subtract : F → F → F
  pub multiply : F → F → F
  pub divide : F → F → F
  pub is_zero : F → Bool
  pub target : Result Bytes
  pub filled : Option Bytes → MathRequest F
  pub marshalled : MathResponse F → Result Bytes

module _ {F : Type 0} (floats : Floats F) where
  -- `c.ReplyOK(basic.MathResponse{Result: …})`
  unfoldable pub reply_result : F → Program (Result Bytes)
  reply_result result =
      replies (some (ok_response (some (floats.marshalled (record { result = result })))))
        (λ sent. returns)

  -- `c.ReplyError(rrpc.RPCStatusClientError, …)`
  unfoldable pub reply_client_error : Error → Program (Result Bytes)
  reply_client_error e = replies (some (error_response status_client_error e)) (λ sent. returns)

  -- A method: it binds the request, and goes on with it.
  unfoldable pub with_request :
      (MathRequest F → Program (Result Bytes))
      → Outcome (Result (Option Bytes))
      → Program (Result Bytes)
  unfolding reply_client_error
  with_request calculate (returned (ok params)) = calculate (floats.filled params)
  with_request calculate (returned (err e)) = reply_client_error (wrapped (lit "invalid request") e)
  with_request calculate (panicked value) = panics value

  unfoldable pub math_handler : (MathRequest F → Program (Result Bytes)) → Handler (Result Bytes)
  unfolding with_request
  math_handler calculate = record {
    method = λ c. with_request calculate (c.bind floats.target);
    timeout = pos 5000000000;
  }

  unfoldable pub divide_program : MathRequest F → Program (Result Bytes)
  unfolding reply_client_error reply_result
  divide_program req =
      if floats.is_zero req.b
      then reply_client_error (other (lit "division by zero"))
      else reply_result (floats.divide req.a req.b)

  -- `registerMathOperations`
  unfoldable pub register_math_operations :
      {W : Type 0} → Server (Result Bytes) W → Server (Result Bytes) W
  unfolding register math_handler reply_result divide_program
  register_math_operations s = register (lit "divide") (math_handler divide_program) (
      register (lit "multiply") (math_handler (λ req. reply_result (floats.multiply req.a req.b))) (
        register (lit "subtract") (math_handler (λ req. reply_result (floats.subtract req.a req.b)))
          (register (lit "add") (math_handler (λ req. reply_result (floats.add req.a req.b))) s)))

  -- The telemetry of `main`: the one that `New` gives, or else the one that does nothing.
  unfoldable pub telemetry_or_noop : {W : Type 0} → Result (Telemetry W) → Telemetry W → Telemetry W
  telemetry_or_noop (ok tel) noop = tel
  telemetry_or_noop (err e) noop = noop

  -- The server that `main` makes.
  unfoldable pub math_server :
      {W : Type 0} → Bytes → ℤ → Telemetry W → Result (Telemetry W) → Server (Result Bytes) W
  unfolding new_server set_telemetry telemetry_or_noop register_math_operations
  math_server uuid cpus noop tel =
      register_math_operations
        (set_telemetry (telemetry_or_noop tel noop) (new_server uuid cpus noop []))
