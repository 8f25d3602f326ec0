-- ===== src/Core/Otel.antt =====
-- core/otel.rs: the layer that exports traces, and its shutdown. The exporter and the provider are the
-- telemetry library's.
use topdesk_mcp_rs.Core.Errors.{AnyError}
use topdesk_mcp_rs.Shared.{String, Result, ok, err}

pub record OtelCrate (W : Type 0) : Type 1 where
  pub SpanExporter : Type 0
  pub TracerProvider : Type 0
  -- The exporter over HTTP.
  pub build_exporter : W → W × Result AnyError SpanExporter
  -- A provider with a batch exporter, for a service of this name.
  pub build_provider : SpanExporter → String → W → W × TracerProvider
  pub shutdown : TracerProvider → W → W × Result AnyError (Unit {0})
  pub log_error : String → AnyError → W → W

module _ {W : Type 0} (c : OtelCrate W) where
  -- The provider, whose tracer the layer is made of.
  unfoldable pub build_layer : String → W → W × Result AnyError c.TracerProvider
  build_layer service_name w =
      let (w', built) = c.build_exporter w in
      elim built [
        | err e ↦ (w', err e)
        | ok exporter ↦
            let (w'', provider) = c.build_provider exporter service_name w' in (w'', ok provider)
      ]

  -- A provider that does not shut down is reported, and the shutdown goes on.
  unfoldable pub shutdown_tracing : c.TracerProvider → W → W
  shutdown_tracing provider w =
      let (w', done) = c.shutdown provider w in
      elim done [
        | ok _ ↦ w'
        | err e ↦ c.log_error "failed to shut down OpenTelemetry tracer provider" e w'
      ]
