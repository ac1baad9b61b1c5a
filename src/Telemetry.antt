-- ===== src/Telemetry.antt =====
-- telemetry/telemetry.go: the set-up of OpenTelemetry, and what it records of requests.
pub mod Setup
pub mod Requests
use go_reverse_rpc.Base.{
  ℕ, suc, ◌/◌, Bool, true, false, Option, none, some, List, [], ◌∷◌, ◌++◌, Bytes, bytes_eq, lit,
  ◌==◌, if◌then◌else◌,
}
use go_reverse_rpc.Base.Dict.{Dict}
use go_reverse_rpc.Errors.{Error, message, wrapped, Result, ok, err}
use go_reverse_rpc.Server

-- `io.Writer`s: the standard output, or another one by its number.
pub data Writer : Type 0 where
  stdout : Writer
  writer : ℕ → Writer

pub record Config : Type 0 where
  pub service_name : Bytes
  pub service_version : Bytes
  pub environment : Bytes
  pub otlp_endpoint : Bytes
  pub trace_writer : Option Writer
  pub metric_writer : Option Writer
  pub debug : Bool
  pub enabled : Bool

pub data Exporter : Type 0 where
  to_writer : Writer → Exporter
  to_endpoint : Bytes → Exporter

-- A provider by its resource's attributes and its exporter; the no-op providers have none.
pub record Provider : Type 0 where
  pub attributes : Dict Bytes Bytes
  pub exporter : Option Exporter

-- `TelemetryImpl`: its tracer, meter and instruments are those of the two providers.
pub record TelemetryImpl : Type 0 where
  pub tp : Provider
  pub mp : Provider
  pub enabled : Bool

-- `IsEnabled`
unfoldable pub is_enabled : TelemetryImpl → Bool
is_enabled t = t.enabled

-- The providers that the otel package holds for the whole program.
pub record Globals : Type 0 where
  pub tracer_provider : Option Provider
  pub meter_provider : Option Provider
  pub text_map_propagator : Bool

-- What the constructors of the OpenTelemetry packages say to their arguments.
pub record Sdk : Type 0 where
  pub new_resource : Dict Bytes Bytes → Option Error
  pub new_trace_exporter : Exporter → Option Error
  pub new_metric_exporter : Exporter → Option Error
  pub new_histogram : Provider → Option Error
  pub new_counter : Provider → Option Error

-- A step that may fail and may set the globals.
abbrev pub M : Type 0 → Type 0
M A = Globals → Result A × Globals

infixl 5 ◌>>=◌ ◌>>◌
abbrev pub ◌>>=◌ : {A B : Type 0} → M A → (A → M B) → M B
◌>>=◌ m f g = let (result, g') = m g in elim result [ ok a ↦ f a g' | err e ↦ (err e, g') ]

abbrev pub ◌>>◌ : {B : Type 0} → M (Unit {0}) → M B → M B
m >> k = m >>= λ _. k

abbrev pub pure : {A : Type 0} → A → M A
pure a g = (ok a, g)

-- `if err != nil { return nil, fmt.Errorf("failed to create …: %w", err) }`
abbrev pub try : Bytes → Option Error → M (Unit {0})
try what none g = (ok tt, g)
try what (some e) g = (err (wrapped (lit "failed to create " ++ what) e), g)

abbrev set_tracer_provider : Provider → M (Unit {0})
set_tracer_provider tp g = (ok tt, record g { tracer_provider = some tp })

abbrev set_text_map_propagator : M (Unit {0})
set_text_map_propagator g = (ok tt, record g { text_map_propagator = true })

abbrev set_meter_provider : Provider → M (Unit {0})
set_meter_provider mp g = (ok tt, record g { meter_provider = some mp })

abbrev or_stdout : Option Writer → Writer
or_stdout none = stdout
or_stdout (some w) = w

-- Where traces or metrics go.
unfoldable pub exporter : Bool → Option Writer → Bytes → Exporter
exporter debug w endpoint = if debug then to_writer (or_stdout w) else to_endpoint endpoint

abbrev pub attributes : Config → Dict Bytes Bytes
attributes cfg =
    (lit "service.name", cfg.service_name)
    ∷ (lit "service.version", cfg.service_version)
    ∷ (lit "deployment.environment", cfg.environment)
    ∷ []

abbrev noop_attributes : Dict Bytes Bytes
noop_attributes = (lit "service.name", lit "noop") ∷ []

abbrev pub noop_provider : Provider
noop_provider = record { attributes = noop_attributes; exporter = none }

unfoldable pub trace_provider : Config → Provider
unfolding exporter
trace_provider cfg = record {
  attributes = attributes cfg;
  exporter = some (exporter cfg.debug cfg.trace_writer cfg.otlp_endpoint);
}

unfoldable pub meter_provider : Config → Provider
unfolding exporter
meter_provider cfg = record {
  attributes = attributes cfg;
  exporter = some (exporter cfg.debug cfg.metric_writer cfg.otlp_endpoint);
}

-- `getEnvOrDefault`; `getenv` gives the empty string for a variable that is not set.
unfoldable pub get_env_or_default : (Bytes → Bytes) → Bytes → Bytes → Bytes
get_env_or_default getenv key default_value = if getenv key == [] then default_value else getenv key

-- The configuration of `NewFromEnv`.
unfoldable pub config_from_env : (Bytes → Bytes) → Bytes → Bytes → Config
unfolding get_env_or_default
config_from_env getenv service_name service_version = record {
  service_name = service_name;
  service_version = service_version;
  environment = get_env_or_default getenv (lit "ENVIRONMENT") (lit "development");
  otlp_endpoint =
      get_env_or_default getenv (lit "OTEL_EXPORTER_OTLP_ENDPOINT") (lit "localhost:4317");
  trace_writer = none;
  metric_writer = none;
  debug = get_env_or_default getenv (lit "OTEL_DEBUG") (lit "false") == lit "true";
  enabled = get_env_or_default getenv (lit "OTEL_ENABLED") (lit "false") == lit "true";
}

module _ (sdk : Sdk) where
  -- The two instruments, of a meter.
  unfoldable pub instruments : Provider → M (Unit {0})
  instruments mp = do
    try (lit "request duration histogram") (sdk.new_histogram mp)
    try (lit "error counter") (sdk.new_counter mp)

  -- `NewNoop`
  unfoldable pub new_noop : M TelemetryImpl
  unfolding instruments
  new_noop = do
    try (lit "resource") (sdk.new_resource noop_attributes)
    instruments noop_provider
    pure (record { tp = noop_provider; mp = noop_provider; enabled = false })

  -- `New`, of an enabled configuration.
  unfoldable pub new_enabled : Config → M TelemetryImpl
  unfolding instruments trace_provider meter_provider exporter
  new_enabled cfg = do
    try (lit "resource") (sdk.new_resource (attributes cfg))
    try (lit "trace exporter")
        (sdk.new_trace_exporter (exporter cfg.debug cfg.trace_writer cfg.otlp_endpoint))
    set_tracer_provider (trace_provider cfg)
    set_text_map_propagator
    try (lit "metric exporter")
        (sdk.new_metric_exporter (exporter cfg.debug cfg.metric_writer cfg.otlp_endpoint))
    set_meter_provider (meter_provider cfg)
    instruments (meter_provider cfg)
    pure (record { tp = trace_provider cfg; mp = meter_provider cfg; enabled = true })

  -- `New`
  unfoldable pub new : Config → M TelemetryImpl
  unfolding new_noop new_enabled
  new cfg = if cfg.enabled then new_enabled cfg else new_noop

  -- `NewFromEnv`
  unfoldable pub new_from_env : (Bytes → Bytes) → Bytes → Bytes → M TelemetryImpl
  unfolding config_from_env new
  new_from_env getenv service_name service_version =
      new (config_from_env getenv service_name service_version)

-- `Shutdown`, with the answers of the two providers, and which of them were asked.
unfoldable pub shutdown : Option Error → Option Error → Option Error × ℕ
shutdown (some e) metrics = (some (wrapped (lit "failed to shutdown trace provider") e), 1)
shutdown none (some e) = (some (wrapped (lit "failed to shutdown meter provider") e), 2)
shutdown none none = (none, 2)
