-- ===== src/Telemetry/Span.antt =====
-- internal/telemetry/telemetry.go: the methods of *Span. `none` is the nil span of a disabled
-- provider. The mutex makes the change of a span's fields one step.
pub mod Once
pub mod Disabled
use libre_mail_bug_report_in.Prelude.{
  ℕ, Option, none, some, List, [], ◌∷◌, ◌++◌, Bool, true, false, if◌then◌else◌,
}
use libre_mail_bug_report_in.Prelude.Text.{Text, codes}
use libre_mail_bug_report_in.Telemetry.Data.{
  Time, KeyValue, string_attr, Status, SpanContext, no_span, SpanData, Event, status_error,
}
use libre_mail_bug_report_in.Telemetry.Provider.{Exporter, Telemetry, Span, handled}

module _ {W : Type 0} where
  unfoldable pub span_context : Option (Span W) → SpanContext
  span_context none = no_span
  span_context (some s) = s.sc

  unfoldable pub set_attributes : List KeyValue → Option (Span W) → Option (Span W)
  set_attributes kvs none = none
  set_attributes [] (some s) = some s
  set_attributes (kv ∷ kvs) (some s) = some (record s { attrs = s.attrs ++ kv ∷ kvs })

  unfoldable pub set_status : ℕ → Text → Option (Span W) → Option (Span W)
  set_status code message none = none
  set_status code message (some s) =
      some (record s { span_status = record { code = code; message = message } })

  unfoldable pub add_event : Text → List KeyValue → Option (Span W) → W → Option (Span W) × W
  add_event name kvs none w = (none, w)
  add_event name kvs (some s) w =
      let (at, w') = s.tel.now w in
      let event : Event = record { event_name = name; event_time = at; event_attributes = kvs } in
      (some (record s { span_events = s.span_events ++ event ∷ [] }), w')

  -- of an error, by its text
  unfoldable pub record_error : Option Text → Option (Span W) → W → Option (Span W) × W
  unfolding add_event set_status string_attr
  record_error failure none w = (none, w)
  record_error none (some s) w = (some s, w)
  record_error (some text) (some s) w =
      let (s', w') =
        add_event (codes "exception") (string_attr (codes "exception.message") text ∷ []) (some s)
          w in
      (set_status status_error text s', w')

  -- the data of a span that ends now
  abbrev pub data_of : Span W → Time → SpanData
  data_of s at = record {
    name = s.span_name;
    span_context = s.sc;
    parent_span_id = s.parent;
    kind = s.span_kind;
    start_time = s.start;
    end_time = at;
    attributes = s.attrs;
    events = s.span_events;
    status = s.span_status;
  }

  unfoldable pub end_span : Option (Span W) → W → Option (Span W) × W
  unfolding handled
  end_span none w = (none, w)
  end_span (some s) w =
      if s.ended
      then (some s, w)
      else (let (at, w') = s.tel.now w in
          (
            some (record s { ended = true }),
            handled s.tel (s.sink.export_spans (data_of s at ∷ []) w'),
          ))
