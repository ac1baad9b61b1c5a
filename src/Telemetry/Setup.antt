-- ===== src/Telemetry/Setup.antt =====
-- What `New` and `NewFromEnv` leave behind when they succeed and when they fail.
use go_reverse_rpc.Base.{
  ◌≡◌, ◌∙◌, true, none, some, Bytes, bytes_eq, lit, ◌==◌, if◌then◌else◌, arith,
}
use go_reverse_rpc.Errors.{Error, wrapped, ok, err}
use go_reverse_rpc.Telemetry.{
  Config, TelemetryImpl, Globals, Sdk, exporter, attributes, trace_provider, new, config_from_env,
  new_from_env,
}

module _ (sdk : Sdk) where
  -- The program's globals after a success.
  abbrev pub Installed : TelemetryImpl → Globals → Globals → Type 0
  Installed tel before after =
      (after.tracer_provider ≡ (if tel.enabled then some tel.tp else before.tracer_provider))
      × (after.meter_provider ≡ (if tel.enabled then some tel.mp else before.meter_provider))

  -- When `New` succeeds, telemetry is enabled exactly if the configuration says so; then the
  -- program's providers are those of the telemetry, and otherwise they are as before.
  pub new_installs :
      (cfg : Config) (g g' : Globals) (tel : TelemetryImpl)
      → new sdk cfg g ≡ (ok tel, g')
      → (tel.enabled ≡ cfg.enabled) × Installed tel g g'
  unfolding new
  new_installs cfg g g' tel e = ground arith

  -- A configuration from the environment enables telemetry exactly if OTEL_ENABLED is "true".
  pub new_from_env_enabled :
      (getenv : Bytes → Bytes) (name version : Bytes) (g g' : Globals) (tel : TelemetryImpl)
      → new_from_env sdk getenv name version g ≡ (ok tel, g')
      → tel.enabled ≡ (getenv (lit "OTEL_ENABLED") == lit "true")
  unfolding new_from_env
  new_from_env_enabled getenv name version g g' tel e =
      (new_installs (config_from_env getenv name version) g g' tel e).0 ∙ ground arith

  -- Let the trace exporter be made and the metric exporter fail. Then `New` fails, and the
  -- program's tracer provider is the new one all the same, which nobody can shut down.
  pub new_leaves_tracer :
      (cfg : Config) (g : Globals) (e : Error)
      → cfg.enabled ≡ true
      → sdk.new_resource (attributes cfg) ≡ none
      → sdk.new_trace_exporter (exporter cfg.debug cfg.trace_writer cfg.otlp_endpoint) ≡ none
      → sdk.new_metric_exporter (exporter cfg.debug cfg.metric_writer cfg.otlp_endpoint) ≡ some e
      → ((new sdk cfg g).0 ≡ err (wrapped (lit "failed to create metric exporter") e))
        × ((new sdk cfg g).1.tracer_provider ≡ some (trace_provider cfg))
        × ((new sdk cfg g).1.meter_provider ≡ g.meter_provider)
  unfolding new
  new_leaves_tracer cfg g e on r t m = ground arith
