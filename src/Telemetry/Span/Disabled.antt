-- ===== src/Telemetry/Span/Disabled.antt =====
-- A provider that is off changes nothing: the code that is instrumented behaves as without it.
use libre_mail_bug_report_in.Prelude.{
  ℕ, ◌≡◌, inl, inr, refl, Option, none, List, [], ◌∷◌, false, Option-cases,
}
use libre_mail_bug_report_in.Prelude.Text.{Text}
use libre_mail_bug_report_in.Telemetry.Data.{KeyValue}
use libre_mail_bug_report_in.Telemetry.Provider.{
  Telemetry, Context, SpanOption, exporter_of, enabled, start_span, log,
}
use libre_mail_bug_report_in.Telemetry.Span.{
  set_attributes, set_status, add_event, record_error, end_span,
}
use libre_mail_bug_report_in.Telemetry.Span.Once.{
  SpanCall, attributes_call, status_call, event_call, error_call, end_call, call, call_all,
}

module _ {W : Type 0} where
  call_all-none : (calls : List SpanCall) (w : W) → call_all calls (none, w) ≡ (none, w)
  unfolding call_all call set_attributes set_status add_event record_error end_span
  call_all-none [] w = refl
  call_all-none (attributes_call kvs ∷ calls) w = call_all-none calls w
  call_all-none (status_call code message ∷ calls) w = call_all-none calls w
  call_all-none (event_call name kvs ∷ calls) w = call_all-none calls w
  call_all-none (error_call failure ∷ calls) w = call_all-none calls w
  call_all-none (end_call ∷ calls) w = call_all-none calls w

  pub enabled-none : (t : Option (Telemetry W)) → enabled t ≡ false → exporter_of t ≡ none
  unfolding enabled
  enabled-none t h = elim (Option-cases (exporter_of t)) [
    | inl e ↦ e
    | inr (x, e) ↦ let h' = rw (e, enabled) at h in cc
  ]

  -- With a provider that is not enabled, starting a span gives the context back and a nil span; no
  -- calls on that span, and no log call, touch the clock, the id sources, the exporter or the handler.
  pub disabled_silent :
      (t : Option (Telemetry W)) (ctx : Context W) (name : Text) (opts : List SpanOption)
      (calls : List SpanCall) (severity : ℕ) (body : Text) (attrs : List KeyValue) (w : W)
      → enabled t ≡ false
      → (start_span t ctx name opts w ≡ ((ctx, none), w))
        × ((call_all calls ((start_span t ctx name opts w).0.1, w) ≡ (none, w))
            × (log t ctx severity body attrs w ≡ w))
  unfolding start_span log
  disabled_silent t ctx name opts calls severity body attrs w h =
      let off = enabled-none t h in
      (
        rw (off, start_span) refl,
        (rw (off, start_span) (call_all-none calls w), rw (off, log) refl),
      )
