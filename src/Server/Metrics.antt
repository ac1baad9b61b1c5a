-- ===== src/Server/Metrics.antt =====
-- server.go: `RegisterMetrics`, the metrics of Prometheus.
use go_reverse_rpc.Base.{
  ℕ, Bool, Option, none, some, List, [], ◌∷◌, ◌++◌, Bytes, lit, if◌then◌else◌,
}
use go_reverse_rpc.Base.Dict.{Dict}
use go_reverse_rpc.Errors.{Error, message}
use go_reverse_rpc.Context.{Response}
use go_reverse_rpc.Server.{Server, Telemetry, Callback, status_label, on_after_response}

-- What the two vectors were given, the latest first: labels with a duration in nanoseconds, and
-- labels of an increment.
pub record Metrics : Type 0 where
  pub response_time : List (Dict Bytes Bytes × ℕ)
  pub error_count : List (Dict Bytes Bytes)

abbrev pub labels : Bytes → Bytes → Dict Bytes Bytes
labels name status = (lit "name", name) ∷ (lit "status", status) ∷ []

abbrev pub observe : Bool → Dict Bytes Bytes → ℕ → Metrics → Metrics
observe given ls duration m =
    if given then record m { response_time = (ls, duration) ∷ m.response_time } else m

-- The increments with one for an error.
abbrev pub counted :
    Option Error → Dict Bytes Bytes → List (Dict Bytes Bytes) → List (Dict Bytes Bytes)
counted none ls count = count
counted (some e) ls count = (ls ++ (lit "message", message e) ∷ []) ∷ count

abbrev pub increment : Bool → Option Error → Dict Bytes Bytes → Metrics → Metrics
increment given error ls m =
    if given then record m { error_count = counted error ls m.error_count } else m

-- Telemetry that does nothing.
abbrev pub silent : Telemetry Metrics
silent = record {
  start_span = λ name m. m;
  end_span = λ m. m;
  record_request = λ duration name status error m. m;
}

module _ {R : Type 0} where
  abbrev error_of : Option (Response R) → Option Error
  error_of none = none
  error_of (some r) = r.error

  -- The callback; the two tests are whether the vectors are not nil. On a nil response it panics
  -- after the observation, but `Call` emits none.
  unfoldable pub metrics_callback : Bytes → Bool → Bool → Callback R Metrics
  unfolding status_label
  metrics_callback name response_time error_count e m =
      let ls = labels name (status_label e.res) in
      increment error_count (error_of e.res) ls (observe response_time ls e.duration m)

  -- `RegisterMetrics`
  unfoldable pub register_metrics : Bool → Bool → Server R Metrics → Server R Metrics
  unfolding on_after_response metrics_callback
  register_metrics response_time error_count s =
      on_after_response (metrics_callback s.options.name response_time error_count) s
