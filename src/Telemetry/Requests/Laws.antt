-- ===== src/Telemetry/Requests/Laws.antt =====
-- Which span the end of a span ends.
use go_reverse_rpc.Base.{ℕ, ◌≡◌, some, ◌∷◌, Bytes, arith, if◌then◌else◌}
use go_reverse_rpc.Telemetry.{TelemetryImpl}
use go_reverse_rpc.Telemetry.Requests.{Recorded, start_span, end_span}

-- A span that is started and ended: enabled telemetry ends its own new span and no other; with
-- disabled telemetry `End` is called on the span of the context that was passed in.
pub end_span-start_span :
    (t : TelemetryImpl) (name : Bytes) (m : Recorded) (outer : ℕ)
    → m.context_span ≡ some outer
    → (end_span (start_span t name m)).ended ≡ (if t.enabled then m.next else outer) ∷ m.ended
unfolding end_span start_span
end_span-start_span t name m outer e = ground arith
