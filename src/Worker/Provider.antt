-- ===== src/Worker/Provider.antt =====
-- worker/telemetry_wasm.go: the provider that is built once in an isolate. The plain variables, the
-- secret and the log are the runtime's; `make` is telemetry.New with its error handler over the
-- exporter of a configuration.
use libre_mail_bug_report_in.Prelude.{
  ◌≡◌, refl, ap, Option, none, some, List, [], ◌∷◌, Result, ok, err, Action, if◌then◌else◌,
}
use libre_mail_bug_report_in.Prelude.Text.{Text, codes}
use libre_mail_bug_report_in.Prelude.Text.Spaces.{is_empty}
use libre_mail_bug_report_in.Telemetry.Data.{string_attr}
use libre_mail_bug_report_in.Telemetry.Provider.{Context, Telemetry, new_context}
use libre_mail_bug_report_in.Telemetry.Otlp.Headers.{Header, parse_headers}
use libre_mail_bug_report_in.Telemetry.Otlp.Post.{OtlpConfig}

abbrev pub otel_endpoint_var : Text
otel_endpoint_var = codes "OTEL_EXPORTER_OTLP_ENDPOINT"

abbrev pub otel_service_var : Text
otel_service_var = codes "OTEL_SERVICE_NAME"

abbrev pub otel_headers_secret : Text
otel_headers_secret = codes "OTEL_EXPORTER_OTLP_HEADERS"

abbrev pub otel_service_default : Text
otel_service_default = codes "libremail-bug-report-ingest"

abbrev pub otel_scope_name : Text
otel_scope_name = codes "github.com/JMR-dev/LibreMail-Bug-Report-Ingest"

pub record Runtime (W E : Type 0) : Type 0 where
  pub getenv : Text → W → Text
  pub read_secret : Text → Action W E Text
  pub log_unavailable : E → W → W
  pub make : OtlpConfig → Telemetry W

-- telProvider and telBuilt, beside the world; a provider is kept exactly where one was built
pub record Isolate (W : Type 0) : Type 0 where
  pub world : W
  pub built : Option (Telemetry W)

module _ {W E : Type 0} (runtime : Runtime W E) where
  unfoldable pub headers_of : Result E Text → W → List Header × W
  headers_of (err e) w = ([], runtime.log_unavailable e w)
  headers_of (ok raw) w = (parse_headers raw, w)

  service_of : Text → Text
  service_of service = if is_empty service then otel_service_default else service

  unfoldable pub config_of : Text → Text → List Header → OtlpConfig
  unfolding service_of string_attr
  config_of endpoint service headers = record {
    endpoint = endpoint;
    config_headers = headers;
    config_resource = string_attr (codes "service.name") (service_of service) ∷ [];
    config_scope = record { scope_name = otel_scope_name; scope_version = [] };
  }

  unfoldable pub build_at : Text → W → Option (Telemetry W) × Isolate W
  unfolding headers_of config_of
  build_at [] w = (none, record { world = w; built = none })
  build_at (c ∷ cs) w =
      let (r, w1) = runtime.read_secret otel_headers_secret w in
      let (headers, w2) = headers_of r w1 in
      let t = runtime.make (config_of (c ∷ cs) (runtime.getenv otel_service_var w2) headers) in
      (some t, record { world = w2; built = some t })

  unfoldable pub provider_from : Option (Telemetry W) → W → Option (Telemetry W) × Isolate W
  unfolding build_at
  provider_from (some t) w = (some t, record { world = w; built = some t })
  provider_from none w = build_at (runtime.getenv otel_endpoint_var w) w

  unfoldable pub worker_telemetry : Isolate W → Option (Telemetry W) × Isolate W
  unfolding provider_from
  worker_telemetry i = provider_from i.built i.world

  -- withWorkerTelemetry and scheduledContext: the provider goes into the context
  unfoldable pub with_worker_telemetry : Context W → Isolate W → Context W × Isolate W
  unfolding worker_telemetry new_context
  with_worker_telemetry ctx i = let (t, i') = worker_telemetry i in (new_context ctx t, i')

  build_at_again :
      (endpoint : Text) (w : W) (t : Telemetry W)
      → (build_at endpoint w).0 ≡ some t
      → (build_at endpoint w).1.built ≡ some t
  unfolding build_at
  build_at_again [] w t h = cc
  build_at_again (c ∷ cs) w t h = h

  built_kept :
      (o : Option (Telemetry W)) (w : W) (t : Telemetry W)
      → (provider_from o w).0 ≡ some t
      → (provider_from o w).1.built ≡ some t
  unfolding provider_from
  built_kept (some t') w t h = h
  built_kept none w t h = build_at_again (runtime.getenv otel_endpoint_var w) w t h

  -- A provider that was built once is what every later call returns, in whatever state of the world,
  -- and no later call reads a variable or the secret or changes anything.
  pub worker_telemetry_once :
      (i : Isolate W) (t : Telemetry W) (later : W)
      → (worker_telemetry i).0 ≡ some t
      → worker_telemetry (record (worker_telemetry i).1 { world = later })
        ≡ (some t, record { world = later; built = some t })
  unfolding worker_telemetry provider_from
  worker_telemetry_once i t later h =
      let kept = built_kept i.built i.world t h in ap (λ o. provider_from o later) kept

  -- While no provider was built and the endpoint is not set, telemetry is off and nothing is kept, read
  -- from the secrets or changed.
  pub worker_telemetry_off :
      (i : Isolate W)
      → i.built ≡ none
      → runtime.getenv otel_endpoint_var i.world ≡ []
      → worker_telemetry i ≡ (none, i)
  unfolding worker_telemetry provider_from build_at
  worker_telemetry_off i off unset = rw (off, provider_from, unset, build_at) refl
