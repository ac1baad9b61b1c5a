-- ===== src/Tests/Telemetries.antt =====
-- Telemetry that is set up and records a request, and an adapter with options.
use go_reverse_rpc.Base.{
  ℕ, pos, ◌≡◌, refl, true, false, none, some, [], ◌∷◌, lit, ℕ_discrete, bytes_eq, ◌+◌, ◌*◌, ◌≤◌,
  suc, format_int,
}
use go_reverse_rpc.Base.Dict.{lookup, insert}
use go_reverse_rpc.Errors.{ok}
use go_reverse_rpc.Context.{new_request_context}
use go_reverse_rpc.Server.{returns, replies, Server, new_server, register}
use go_reverse_rpc.Server.Call.{left, run, call}
use go_reverse_rpc.Server.Call.Answers.{answer}
use go_reverse_rpc.Telemetry.{
  Sdk, Config, Globals, TelemetryImpl, noop_provider, trace_provider, meter_provider, new,
}
use go_reverse_rpc.Telemetry.Setup.{Installed, new_installs}
use go_reverse_rpc.Telemetry.Requests.{Recorded, telemetry}
use go_reverse_rpc.Telemetry.Requests.Served.{run_recorded}
use go_reverse_rpc.Tests.Calls.{child, seven, env, in_time, in_time-Fits, seven-Transmits}

abbrev cfg : Config
cfg = record {
  service_name = lit "s";
  service_version = lit "1";
  environment = lit "test";
  otlp_endpoint = lit "localhost:4317";
  trace_writer = none;
  metric_writer = none;
  debug = true;
  enabled = true;
}

abbrev before : Globals
before = record { tracer_provider = none; meter_provider = none; text_map_propagator = false }

-- OpenTelemetry packages that refuse nothing.
abbrev working : Sdk
working = record {
  new_resource = λ a. none;
  new_trace_exporter = λ e. none;
  new_metric_exporter = λ e. none;
  new_histogram = λ p. none;
  new_counter = λ p. none;
}

abbrev tel : TelemetryImpl
tel = record { tp = noop_provider; mp = noop_provider; enabled = true }

abbrev recorded : Recorded
recorded = record {
  durations = [];
  errors = [];
  next = 5;
  ended = [];
  context_span = some 2;
  span = none;
}

abbrev disabled : TelemetryImpl
disabled = record tel { enabled = false }

server : Server ℕ Recorded
unfolding new_server register insert
server =
    register (lit "add")
      (record { method = λ child. replies (some seven) (λ sent. returns); timeout = pos 0 })
      (new_server (lit "id") (pos 4) (telemetry tel) [])

server-left :
    (run server env in_time (call server env (new_request_context child) recorded)).caller ≡ left
unfolding server run call new_request_context lookup bytes_eq ℕ_discrete
server-left = refl

server-answers : answer server env child ≡ some seven
unfolding server lookup bytes_eq ℕ_discrete
server-answers = refl

server-telemetry : server.telemetry ≡ telemetry tel
unfolding server
server-telemetry = refl

server-quiet : server.cb_list ≡ []
unfolding server
server-quiet = refl

run_recorded_example :
    let m' =
      (run server env in_time (call server env (new_request_context child) recorded)).world in
    (milliseconds : ℕ) × (milliseconds * 1000000 ≤ env.elapsed + 500000)
    × (env.elapsed ≤ milliseconds * 1000000 + 500000)
    × (m' ≡ record recorded {
      durations =
          record {
            milliseconds = milliseconds;
            attributes = (lit "method", lit "add") ∷ (lit "status", format_int (pos 200)) ∷ [];
          }
          ∷ [];
      errors = [];
      next = suc 5;
      span = some 5;
      ended = 5 ∷ [];
    })
run_recorded_example =
    run_recorded server env child seven tel in_time recorded server-telemetry refl server-quiet
      seven-Transmits server-answers in_time-Fits server-left

abbrev installed : TelemetryImpl
installed = record { tp = trace_provider cfg; mp = meter_provider cfg; enabled = true }

abbrev after : Globals
after = record {
  tracer_provider = some (trace_provider cfg);
  meter_provider = some (meter_provider cfg);
  text_map_propagator = true;
}

new-working : new working cfg before ≡ (ok installed, after)
unfolding new
new-working = refl

new_installs_example : (installed.enabled ≡ true) × Installed working installed before after
new_installs_example = new_installs working cfg before after installed new-working
