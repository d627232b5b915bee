-- ===== src/Telemetry/Span/Once.antt =====
-- The life of a span: any calls of its methods, in any order and number, End included.
use libre_mail_bug_report_in.Prelude.{
  ℕ, ◌≡◌, refl, sym, ap, subst, ◌∙◌, Option, none, some, List, [], ◌∷◌, ◌++◌, append_assoc,
  append-nil, Bool, true, false, if◌then◌else◌,
}
use libre_mail_bug_report_in.Prelude.Text.{Text, codes}
use libre_mail_bug_report_in.Telemetry.Data.{
  KeyValue, string_attr, Status, SpanData, Event, status_error,
}
use libre_mail_bug_report_in.Telemetry.Provider.{Exporter, Telemetry, Span, handled}
use libre_mail_bug_report_in.Telemetry.Span.{
  set_attributes, set_status, add_event, record_error, data_of, end_span,
}

pub data SpanCall : Type 0 where
  attributes_call : List KeyValue → SpanCall
  status_call : ℕ → Text → SpanCall
  event_call : Text → List KeyValue → SpanCall
  error_call : Option Text → SpanCall
  end_call : SpanCall

-- What the calls before the first End say of the span, apart from the code.
unfoldable pub before_end : List SpanCall → List SpanCall
before_end [] = []
before_end (end_call ∷ calls) = []
before_end (attributes_call kvs ∷ calls) = attributes_call kvs ∷ before_end calls
before_end (status_call code message ∷ calls) = status_call code message ∷ before_end calls
before_end (event_call name kvs ∷ calls) = event_call name kvs ∷ before_end calls
before_end (error_call failure ∷ calls) = error_call failure ∷ before_end calls

unfoldable pub ends : List SpanCall → Bool
ends [] = false
ends (end_call ∷ calls) = true
ends (attributes_call kvs ∷ calls) = ends calls
ends (status_call code message ∷ calls) = ends calls
ends (event_call name kvs ∷ calls) = ends calls
ends (error_call failure ∷ calls) = ends calls

unfoldable pub attributes_set : List SpanCall → List KeyValue
attributes_set [] = []
attributes_set (attributes_call kvs ∷ calls) = kvs ++ attributes_set calls
attributes_set (status_call code message ∷ calls) = attributes_set calls
attributes_set (event_call name kvs ∷ calls) = attributes_set calls
attributes_set (error_call failure ∷ calls) = attributes_set calls
attributes_set (end_call ∷ calls) = attributes_set calls

-- the last status, an error's included
unfoldable pub status_set : Status → List SpanCall → Status
status_set s [] = s
status_set s (attributes_call kvs ∷ calls) = status_set s calls
status_set s (status_call code message ∷ calls) =
    status_set (record { code = code; message = message }) calls
status_set s (event_call name kvs ∷ calls) = status_set s calls
status_set s (error_call none ∷ calls) = status_set s calls
status_set s (error_call (some text) ∷ calls) =
    status_set (record { code = status_error; message = text }) calls
status_set s (end_call ∷ calls) = status_set s calls

-- the events, without their times
abbrev pub Untimed : Type 0
Untimed = Text × List KeyValue

unfoldable pub events_set : List SpanCall → List Untimed
unfolding string_attr
events_set [] = []
events_set (attributes_call kvs ∷ calls) = events_set calls
events_set (status_call code message ∷ calls) = events_set calls
events_set (event_call name kvs ∷ calls) = (name, kvs) ∷ events_set calls
events_set (error_call none ∷ calls) = events_set calls
events_set (error_call (some text) ∷ calls) =
    (codes "exception", string_attr (codes "exception.message") text ∷ []) ∷ events_set calls
events_set (end_call ∷ calls) = events_set calls

unfoldable pub untimed : List Event → List Untimed
untimed [] = []
untimed (e ∷ es) = (e.event_name, e.event_attributes) ∷ untimed es

untimed-append : (es fs : List Event) → untimed (es ++ fs) ≡ untimed es ++ untimed fs
unfolding untimed
untimed-append [] fs = refl
untimed-append (e ∷ es) fs = ap (◌∷◌ (e.event_name, e.event_attributes)) (untimed-append es fs)

events_grow :
    (es : List Event) (e : Event) (rest : List Untimed)
    → untimed (es ++ e ∷ []) ++ rest ≡ untimed es ++ ((e.event_name, e.event_attributes) ∷ rest)
unfolding untimed
events_grow es e rest =
    ap (λ x. x ++ rest) (untimed-append es (e ∷ []))
    ∙ append_assoc (untimed es) ((e.event_name, e.event_attributes) ∷ []) rest

module _ {W : Type 0} where
  unfoldable pub call : SpanCall → Option (Span W) × W → Option (Span W) × W
  unfolding set_attributes set_status add_event record_error end_span
  call (attributes_call kvs) (s, w) = (set_attributes kvs s, w)
  call (status_call code message) (s, w) = (set_status code message s, w)
  call (event_call name kvs) (s, w) = add_event name kvs s w
  call (error_call failure) (s, w) = record_error failure s w
  call end_call (s, w) = end_span s w

  unfoldable pub call_all : List SpanCall → Option (Span W) × W → Option (Span W) × W
  unfolding call
  call_all [] x = x
  call_all (c ∷ calls) x = call_all calls (call c x)

  end_span_again : (s : Span W) (w : W) → s.ended ≡ true → end_span (some s) w ≡ (some s, w)
  unfolding end_span
  end_span_again s w e =
      ap
        (λ b. if b then (some s, w) else (
          some (record s { ended = true }),
          handled s.tel (s.sink.export_spans (data_of s (s.tel.now w).0 ∷ []) (s.tel.now w).1),
        ))
        e

  pub end_span_first :
      (s : Span W) (w : W)
      → s.ended ≡ false
      → end_span (some s) w ≡ (
        some (record s { ended = true }),
        handled s.tel (s.sink.export_spans (data_of s (s.tel.now w).0 ∷ []) (s.tel.now w).1),
      )
  unfolding end_span
  end_span_first s w e =
      ap
        (λ b. if b then (some s, w) else (
          some (record s { ended = true }),
          handled s.tel (s.sink.export_spans (data_of s (s.tel.now w).0 ∷ []) (s.tel.now w).1),
        ))
        e

  -- `exported` is what reached the exporter, whether it returned an error or not; the clock and the
  -- handler leave it.
  pub record KeepsExported (exported : W → List SpanData) (tel : Telemetry W) (sink : Exporter W)
      : Type 0 where
    pub export_spans_appends :
        (spans : List SpanData) (w : W)
        → exported (sink.export_spans spans w).1 ≡ exported w ++ spans
    pub now_keeps : (w : W) → exported (tel.now w).1 ≡ exported w
    pub on_err_keeps : (e : Text) (w : W) → exported (tel.on_err e w) ≡ exported w

  -- The exported span is the started one with what the calls before the first End say of it.
  abbrev pub Describes : Span W → List SpanCall → SpanData → Type 0
  Describes s calls d =
      (d.name ≡ s.span_name)
      × (d.span_context ≡ s.sc)
      × (d.parent_span_id ≡ s.parent)
      × (d.kind ≡ s.span_kind)
      × (d.start_time ≡ s.start)
      × (d.attributes ≡ s.attrs ++ attributes_set (before_end calls))
      × (untimed d.events ≡ untimed s.span_events ++ events_set (before_end calls))
      × (d.status ≡ status_set s.span_status (before_end calls))

  module _ (exported : W → List SpanData) (tel : Telemetry W) (sink : Exporter W)
      (keeps : KeepsExported exported tel sink) where
    abbrev event_of : Span W → W → Text → List KeyValue → Event
    event_of s w text kvs = record {
      event_name = text;
      event_time = (s.tel.now w).0;
      event_attributes = kvs;
    }

    pub handled_keeps : (r : Option Text × W) → exported (handled tel r) ≡ exported r.1
    unfolding handled
    handled_keeps (none, w) = refl
    handled_keeps (some e, w) = keeps.on_err_keeps e w

    -- after End, nothing is exported any more
    ended_silent :
        (calls : List SpanCall) (s : Span W) (w : W)
        → s.tel ≡ tel
        → s.ended ≡ true
        → exported (call_all calls (some s, w)).1 ≡ exported w
    unfolding call_all call set_attributes set_status add_event record_error end_span
    ended_silent [] s w et e = refl
    ended_silent (attributes_call [] ∷ calls) s w et e = ended_silent calls s w et e
    ended_silent (attributes_call (kv ∷ kvs) ∷ calls) s w et e = ended_silent calls _ w et e
    ended_silent (status_call code message ∷ calls) s w et e = ended_silent calls _ w et e
    ended_silent (event_call name kvs ∷ calls) s w et e =
        ended_silent calls _ _ et e ∙ rw et (keeps.now_keeps w)
    ended_silent (error_call none ∷ calls) s w et e = ended_silent calls s w et e
    ended_silent (error_call (some text) ∷ calls) s w et e =
        ended_silent calls _ _ et e ∙ rw et (keeps.now_keeps w)
    ended_silent (end_call ∷ calls) s w et e =
        subst (λ x. exported (call_all calls x).1 ≡ exported w) (sym (end_span_again s w e))
          (ended_silent calls s w et e)

    pub end_appends :
        (s : Span W) (w : W)
        → s.tel ≡ tel
        → s.sink ≡ sink
        → exported
            (handled s.tel (s.sink.export_spans (data_of s (s.tel.now w).0 ∷ []) (s.tel.now w).1))
          ≡ exported w ++ data_of s (s.tel.now w).0 ∷ []
    end_appends s w et es =
        let spans = data_of s (tel.now w).0 ∷ [] in
        let at : exported (tel.now w).1 ≡ exported w = keeps.now_keeps w in
        let sent = keeps.export_spans_appends spans (tel.now w).1 in
        let told = handled_keeps (sink.export_spans spans (tel.now w).1) in
        rw (et, es) (told ∙ (sent ∙ ap (λ x. x ++ spans) at))

    -- Where the calls contain an End, exactly one span is exported, whatever they are and whether the
    -- exporter fails or not: the one that was started, with what the calls before the first End say.
    pub call_all-Exports :
        (calls : List SpanCall) (s : Span W) (w : W)
        → s.tel ≡ tel
        → s.sink ≡ sink
        → s.ended ≡ false
        → ends calls ≡ true
        → (d : SpanData) × (exported (call_all calls (some s, w)).1 ≡ exported w ++ d ∷ [])
          × Describes s calls d
    unfolding call_all call set_attributes set_status add_event record_error ends before_end
        attributes_set status_set events_set untimed
    call_all-Exports [] s w et es e h = cc
    call_all-Exports (attributes_call [] ∷ calls) s w et es e h =
        call_all-Exports calls s w et es e h
    call_all-Exports (attributes_call (kv ∷ kvs) ∷ calls) s w et es e h =
        let (d, one, (n, c, p, k, b, a, v, t)) =
          call_all-Exports calls (record s { attrs = s.attrs ++ kv ∷ kvs }) w et es e h in
        (d, one, (n, c, p, k, b, a ∙ append_assoc s.attrs (kv ∷ kvs) _, v, t))
    call_all-Exports (status_call code message ∷ calls) s w et es e h =
        call_all-Exports calls
          (record s { span_status = record { code = code; message = message } }) w et es e h
    call_all-Exports (event_call name kvs ∷ calls) s w et es e h =
        let (d, one, (n, c, p, k, b, a, v, t)) =
          call_all-Exports calls
            (record s { span_events = s.span_events ++ (event_of s w name kvs) ∷ [] })
            (s.tel.now w).1 et es e h in
        (
          d,
          one ∙ ap (λ x. x ++ d ∷ []) (rw et (keeps.now_keeps w)),
          (n, c, p, k, b, a, v ∙ events_grow s.span_events (event_of s w name kvs) _, t),
        )
    call_all-Exports (error_call none ∷ calls) s w et es e h = call_all-Exports calls s w et es e h
    call_all-Exports (error_call (some text) ∷ calls) s w et es e h =
        let (d, one, (n, c, p, k, b, a, v, t)) =
          call_all-Exports calls
            (record s {
              span_events =
                  s.span_events
                  ++ (event_of s w (codes "exception")
                      (string_attr (codes "exception.message") text ∷ []))
                    ∷ [];
              span_status = record { code = status_error; message = text };
            })
            (s.tel.now w).1 et es e h in
        (
          d,
          one ∙ ap (λ x. x ++ d ∷ []) (rw et (keeps.now_keeps w)),
          (
            n,
            c,
            p,
            k,
            b,
            a,
            v
                ∙ events_grow s.span_events
                    (event_of s w (codes "exception")
                      (string_attr (codes "exception.message") text ∷ []))
                    _,
            t,
          ),
        )
    call_all-Exports (end_call ∷ calls) s w et es e h = (
      data_of s (s.tel.now w).0,
      subst (λ x. exported (call_all calls x).1 ≡ exported w ++ data_of s (s.tel.now w).0 ∷ [])
          (sym (end_span_first s w e))
          (ended_silent calls (record s { ended = true }) _ et refl ∙ end_appends s w et es),
      (
        refl,
        refl,
        refl,
        refl,
        refl,
        sym (append-nil s.attrs),
        sym (append-nil (untimed s.span_events)),
        refl,
      ),
    )
