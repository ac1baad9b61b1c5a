-- ===== src/Telemetry/Requests.antt =====
-- telemetry/telemetry.go: what `RecordRequest` and `StartSpan` do to the recorded metrics and
-- spans.
pub mod Laws
pub mod Served
use go_reverse_rpc.Base.{
  ℕ, suc, ◌/◌, Option, none, some, List, [], ◌∷◌, ◌++◌, Bytes, lit, if◌then◌else◌,
}
use go_reverse_rpc.Base.Dict.{Dict}
use go_reverse_rpc.Errors.{Error, message}
use go_reverse_rpc.Server.{Telemetry}
use go_reverse_rpc.Telemetry.{TelemetryImpl}

-- A measurement of the histogram: milliseconds, with its attributes.
pub record Point : Type 0 where
  pub milliseconds : ℕ
  pub attributes : Dict Bytes Bytes

-- `requestDuration` and `errorCounter`, by the measurements that they got, the latest first. `next`
-- numbers the spans; `ended` are the spans on which `End` was called, the latest first.
-- `context_span` is the span of the context that the program passes in, and `span` the one that
-- `StartSpan` has returned.
pub record Recorded : Type 0 where
  pub durations : List Point
  pub errors : List (Dict Bytes Bytes)
  pub next : ℕ
  pub ended : List ℕ
  pub context_span : Option ℕ
  pub span : Option ℕ

abbrev pub request_attributes : Bytes → Bytes → Dict Bytes Bytes
request_attributes method status = (lit "method", method) ∷ (lit "status", status) ∷ []

-- The counter's part: one more for an error.
abbrev pub count_error :
    Option Error → Dict Bytes Bytes → List (Dict Bytes Bytes) → List (Dict Bytes Bytes)
count_error none attrs errors = errors
count_error (some e) attrs errors = (attrs ++ (lit "error", message e) ∷ []) ∷ errors

-- `RecordRequest`, of a duration in nanoseconds.
unfoldable pub record_request :
    TelemetryImpl → ℕ → Bytes → Bytes → Option Error → Recorded → Recorded
record_request t duration method status e m =
    if t.enabled
    then record m {
      durations =
          record {
            milliseconds = duration / 1000000;
            attributes = request_attributes method status;
          }
          ∷ m.durations;
      errors = count_error e (request_attributes method status) m.errors;
    }
    else m

-- `StartSpan`. Without telemetry it is the span that the context has.
unfoldable pub start_span : TelemetryImpl → Bytes → Recorded → Recorded
start_span t name m =
    if t.enabled
    then record m { next = suc m.next; span = some m.next }
    else record m { span = m.context_span }

abbrev pub end_of : Option ℕ → List ℕ → List ℕ
end_of none ended = ended
end_of (some span) ended = span ∷ ended

-- `span.End()`
unfoldable pub end_span : Recorded → Recorded
end_span m = record m { ended = end_of m.span m.ended }

-- The interface that the server is given.
unfoldable pub telemetry : TelemetryImpl → Telemetry Recorded
unfolding record_request start_span end_span
telemetry t = record {
  start_span = start_span t;
  end_span = end_span;
  record_request = record_request t;
}
