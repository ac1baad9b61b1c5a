-- ===== src/Server.antt =====
-- server.go: the server's state, and every operation but `Call` (`Server.Call`).
pub mod Options
pub mod Rounding
pub mod Call
pub mod Metrics
use mathlib.Core.List.{foldl}
use go_reverse_rpc.Base.{
  ℕ, ℤ, ◌+◌, ◌*◌, ◌/◌, Bool, Option, none, some, List, [], ◌∷◌, ◌++◌, Bytes, bytes_eq, lit,
  format_int,
}
use go_reverse_rpc.Base.Dict.{Dict, insert, lookup}
use go_reverse_rpc.Context.{Response, ChildContext}
use go_reverse_rpc.Errors.{Error}
use Options.{ServerOption, ServerOptions, default_options, apply_options}

-- A handler's `Method` sees the `Context` interface only. It is the tree of its replies, each with
-- what it does next by the answer, and of how it ends. Go code in between has no other effect on
-- the request.
pub data Program (R : Type 0) : Type 0 where
  returns : Program R
  panics : Bytes → Program R
  replies : Option (Response R) → (Bool → Program R) → Program R

pub record Handler (R : Type 0) : Type 0 where
  pub method : ChildContext R → Program R
  pub timeout : ℤ

-- `Duration` is in nanoseconds.
pub record AfterResponseEvent (R : Type 0) : Type 0 where
  pub duration : ℕ
  pub res : Option (Response R)

-- `W` is the world that callbacks and telemetry act on.
pub record Telemetry (W : Type 0) : Type 0 where
  pub start_span : Bytes → W → W
  pub end_span : W → W
  pub record_request : ℕ → Bytes → Bytes → Option Error → W → W

abbrev pub Callback : Type 0 → Type 0 → Type 0
Callback R W = AfterResponseEvent R → W → W

pub record Server (R W : Type 0) : Type 0 where
  pub handler_map : Dict Bytes (Handler R)
  pub cb_list : List (Callback R W)
  pub options : ServerOptions
  pub telemetry : Telemetry W

module _ {R W : Type 0} where
  -- `NewServer`; `noop` is the telemetry that `NewNoop` gives.
  unfoldable pub new_server : Bytes → ℤ → Telemetry W → List ServerOption → Server R W
  unfolding default_options apply_options
  new_server uuid cpus noop options = record {
    handler_map = [];
    cb_list = [];
    options = apply_options options (default_options uuid cpus);
    telemetry = noop;
  }

  unfoldable pub register : Bytes → Handler R → Server R W → Server R W
  register method hdl s = record s { handler_map = insert method hdl s.handler_map }

  unfoldable pub on_after_response : Callback R W → Server R W → Server R W
  on_after_response cb s = record s { cb_list = s.cb_list ++ cb ∷ [] }

  unfoldable pub set_telemetry : Telemetry W → Server R W → Server R W
  set_telemetry tel s = record s { telemetry = tel }

  unfoldable pub emit_after_response : Server R W → AfterResponseEvent R → W → W
  emit_after_response s e w = foldl (λ acc cb. cb e acc) w s.cb_list

-- `time.Duration.Round(time.Millisecond)` of a duration that is not negative, in nanoseconds.
unfoldable pub round_millisecond : ℕ → ℕ
round_millisecond d = (d + 500000) / 1000000 * 1000000

-- The status label of metrics: "0" without a response.
unfoldable pub status_label : {R : Type 0} → Option (Response R) → Bytes
unfolding format_int
status_label none = lit "0"
status_label (some r) = format_int r.status
