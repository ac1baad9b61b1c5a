-- ===== src/Server/Options.antt =====
-- server_option.go: the options of a server, as functions that are applied in turn.
use mathlib.Core.List.{foldl}
use go_reverse_rpc.Base.{ℤ, pos, Bool, true, false, List, Bytes}

pub record ServerOptions : Type 0 where
  pub log_response : Bool
  pub name : Bytes
  pub worker_num : ℤ
  -- nanoseconds
  pub limiter_duration : ℤ
  pub limiter_count : ℤ
  pub limiter_reject : Bool

abbrev pub ServerOption : Type 0
ServerOption = ServerOptions → ServerOptions

unfoldable pub with_server_name : Bytes → ServerOption
with_server_name name o = record o { name = name }

unfoldable pub with_log_response : Bool → ServerOption
with_log_response log_response o = record o { log_response = log_response }

unfoldable pub with_limiter : ℤ → ℤ → ServerOption
with_limiter d count o = record o { limiter_duration = d; limiter_count = count }

unfoldable pub with_limiter_reject : ServerOption
with_limiter_reject o = record o { limiter_reject = true }

unfoldable pub with_limiter_wait : ServerOption
with_limiter_wait o = record o { limiter_reject = false }

unfoldable pub with_worker_num : ℤ → ServerOption
with_worker_num count o = record o { worker_num = count }

-- The defaults of `NewServer`; `uuid` and `cpus` are `uuid.New().String()` and `runtime.NumCPU()`.
unfoldable pub default_options : Bytes → ℤ → ServerOptions
default_options uuid cpus = record {
  log_response = false;
  name = uuid;
  worker_num = cpus;
  limiter_duration = pos 1000000000;
  limiter_count = pos 5;
  limiter_reject = true;
}

-- `for _, option := range options { option(&o) }`
unfoldable pub apply_options : List ServerOption → ServerOptions → ServerOptions
apply_options options o = foldl (λ acc option. option acc) o options
