-- ===== src/Telemetry/Provider/Nested.antt =====
-- Spans that are started one inside the other.
use libre_mail_bug_report_in.Prelude.{◌≡◌, refl, ◌∙◌, Option, none, some, List, [], ◌∷◌, false}
use libre_mail_bug_report_in.Prelude.Text.{Text}
use libre_mail_bug_report_in.Telemetry.Data.{IdBytes, SpanContext, no_span, is_zero}
use libre_mail_bug_report_in.Telemetry.Provider.{
  Exporter, Telemetry, Context, Span, SpanOption, exporter_of, start_span, span_under, trace_id_for,
  span_context_from_context, context_with_span_context,
}

module _ {W : Type 0} (tel : Telemetry W) where
  abbrev with_started : Option (Span W) → List (Span W) → List (Span W)
  with_started none spans = spans
  with_started (some s) spans = s ∷ spans

  -- one span for each name, each started with the context that the start before it returned
  unfoldable pub start_each : List (Text × List SpanOption) → Context W → W → List (Span W)
  unfolding start_span
  start_each [] ctx w = []
  start_each ((name, opts) ∷ names) ctx w =
      let ((ctx', s), w') = start_span (some tel) ctx name opts w in
      with_started s (start_each names ctx' w')

  -- of one trace, each the child of the one before
  abbrev pub IsChain : IdBytes → IdBytes → List (Span W) → Type 0
  IsChain trace parent [] = Unit
  IsChain trace parent (s ∷ spans) =
      (s.sc.trace_id ≡ trace) × (s.parent ≡ parent) × IsChain trace s.sc.span_id spans

  abbrev pub Chained : List (Span W) → Type 0
  Chained [] = Unit
  Chained (s ∷ spans) = IsChain s.sc.trace_id s.sc.span_id spans

  module _ (sink : Exporter W) (on : exporter_of (some tel) ≡ some (tel, sink)) where
    span_under-child :
        (sc : SpanContext) (name : Text) (opts : List SpanOption) (w : W)
        → is_zero sc.trace_id ≡ false
        → ((span_under tel sink sc name opts w).0.sc.trace_id ≡ sc.trace_id)
          × ((span_under tel sink sc name opts w).0.parent ≡ sc.span_id)
    unfolding span_under trace_id_for
    span_under-child sc name opts w nonzero = (rw nonzero refl, refl)

    start_each-IsChain :
        (names : List (Text × List SpanOption)) (ctx : Context W) (sc : SpanContext)
        (trace : IdBytes) (w : W)
        → ctx.active ≡ some sc
        → sc.trace_id ≡ trace
        → is_zero trace ≡ false
        → IsChain trace sc.span_id (start_each names ctx w)
    unfolding start_each start_span span_context_from_context context_with_span_context
    start_each-IsChain [] ctx sc trace w active et nonzero = tt
    start_each-IsChain ((name, opts) ∷ names) ctx sc trace w active et nonzero =
        let s = (span_under tel sink sc name opts w).0 in
        let w' = (span_under tel sink sc name opts w).1 in
        let (same, below) = span_under-child sc name opts w (rw et nonzero) in
        let rest =
          start_each-IsChain names (context_with_span_context ctx s.sc) s.sc trace w' refl
            (same ∙ et) nonzero in
        rw (on, start_span, active) (same ∙ et, below, rest)

    span_under-root :
        (name : Text) (opts : List SpanOption) (w : W)
        → ((v : W) → is_zero (tel.new_trace v).0 ≡ false)
        → is_zero (span_under tel sink no_span name opts w).0.sc.trace_id ≡ false
    unfolding span_under trace_id_for is_zero
    span_under-root name opts w nonzero = nonzero w

    -- With an enabled provider whose random trace ids are not zero: spans that are started one inside
    -- the other, the first outside of any, have the trace of the first, and each is the child of the
    -- one before.
    pub start_each-Chained :
        (names : List (Text × List SpanOption)) (ctx : Context W) (w : W)
        → ctx.active ≡ none
        → ((v : W) → is_zero (tel.new_trace v).0 ≡ false)
        → Chained (start_each names ctx w)
    unfolding start_each start_span span_context_from_context context_with_span_context
    start_each-Chained [] ctx w outside nonzero = tt
    start_each-Chained ((name, opts) ∷ names) ctx w outside nonzero =
        let s = (span_under tel sink no_span name opts w).0 in
        let w' = (span_under tel sink no_span name opts w).1 in
        rw (on, start_span, outside)
          (start_each-IsChain names (context_with_span_context ctx s.sc) s.sc s.sc.trace_id w' refl
            refl (span_under-root name opts w nonzero))
