-- ===== src/Telemetry/Otlp/ReadBack.antt =====
-- A reader of the wire spans, and that it gets the span back that was put in: nothing is lost, and
-- what omitempty leaves out is what the reader puts in its place.
use libre_mail_bug_report_in.Prelude.{
  ℕ, zero, suc, ◌+◌, ◌-◌, ◌/◌, ◌%◌, ◌<◌, ◌≡◌, inl, inr, refl, sym, ap, ap₂, ◌∙◌, Option, none, some,
  List, [], ◌∷◌, Bool, true, false, not, ◌||◌, ltb, ◌==◌, if◌then◌else◌, arith, All, length,
  Bool-cases, map,
}
use libre_mail_bug_report_in.Prelude.Text.{Text}
use libre_mail_bug_report_in.Prelude.Text.Spaces.{is_empty}
use libre_mail_bug_report_in.Storage.Sink.{hex}
use libre_mail_bug_report_in.Telemetry.Data.{
  Time, IdBytes, ℤ, pos, negsuc, Value, string, bool, int64, int, float64, other, KeyValue, Status,
  Event, SpanData, is_zero, status_unset,
}
use libre_mail_bug_report_in.Telemetry.Otlp.{
  OtlpAnyValue, string_value, bool_value, int_value, double_value, OtlpKeyValue, OtlpStatus,
  OtlpEvent, OtlpSpan, Scope, to_any_value, to_otlp_attrs, nanos, to_otlp_events, parent_hex,
  to_otlp_status, to_otlp_span, build_traces_payload,
}
use libre_mail_bug_report_in.Telemetry.Otlp.Decimal.{
  digits, format_int, format_unsigned, read_digits, read_digits-format_unsigned, unhex, unhex-hex,
  IsByte,
}

abbrev is_negative : Text → Bool
is_negative [] = false
is_negative (c ∷ s) = c == b'-'

abbrev behind : Text → Text
behind [] = []
behind (c ∷ s) = s

read_int : Text → ℤ
unfolding read_digits
read_int s = if is_negative s then negsuc (read_digits 0 (behind s) - 1) else pos (read_digits 0 s)

read_value : OtlpAnyValue → Value
unfolding read_int
read_value (string_value x) = string x
read_value (bool_value x) = bool x
read_value (int_value x) = int64 (read_int x)
read_value (double_value x) = float64 x

read_attrs : List OtlpKeyValue → List KeyValue
unfolding read_value
read_attrs [] = []
read_attrs (kv ∷ attrs) =
    record { key = kv.otlp_key; value = read_value kv.otlp_value } ∷ read_attrs attrs

read_time : Text → Time
unfolding read_digits
read_time s = if read_digits 0 s == 0 then none else some (read_digits 0 s)

read_events : List OtlpEvent → List Event
unfolding read_time read_attrs
read_events [] = []
read_events (ev ∷ events) =
    record {
      event_name = ev.otlp_event_name;
      event_time = read_time ev.event_time_unix_nano;
      event_attributes = read_attrs ev.otlp_event_attributes;
    }
    ∷ read_events events

abbrev zeros : ℕ → IdBytes
zeros zero = []
zeros (suc n) = 0 ∷ zeros n

read_parent : Text → IdBytes
unfolding unhex
read_parent [] = zeros 8
read_parent (c ∷ s) = unhex (c ∷ s)

read_status : Option OtlpStatus → Status
read_status none = record { code = status_unset; message = [] }
read_status (some s) = record { code = s.status_code; message = s.status_message }

unfoldable pub read_span : OtlpSpan → SpanData
unfolding unhex read_parent read_time read_attrs read_events read_status
read_span o = record {
  name = o.otlp_name;
  span_context = record { trace_id = unhex o.trace_id_hex; span_id = unhex o.span_id_hex };
  parent_span_id = read_parent o.parent_span_id_hex;
  kind = o.otlp_kind;
  start_time = read_time o.start_time_unix_nano;
  end_time = read_time o.end_time_unix_nano;
  attributes = read_attrs o.otlp_attributes;
  events = read_events o.otlp_events;
  status = read_status o.otlp_status;
}

-- int64, which has 64 bits
abbrev pub IsInt64 : ℤ → Type 0
IsInt64 (pos n) = n < 9223372036854775808
IsInt64 (negsuc n) = n < 9223372036854775808

-- a value as the constructors of attributes make it: Int makes an int64
abbrev pub IsAttr : KeyValue → Type 0
IsAttr kv = IsTyped kv.value
  where
    IsTyped : Value → Type 0
    IsTyped (string x) = Unit
    IsTyped (bool x) = Unit
    IsTyped (int64 x) = IsInt64 x
    IsTyped (int x) = ⊥
    IsTyped (float64 x) = Unit
    IsTyped (other x) = ⊥

-- the zero time, or one after the epoch whose nanoseconds fit in 64 bits
abbrev pub IsTime : Time → Type 0
IsTime none = Unit
IsTime (some n) = (0 < n) × (n < 9223372036854775808)

abbrev pub IsEvent : Event → Type 0
IsEvent e = IsTime e.event_time × All IsAttr e.event_attributes

pub record IsSpan (s : SpanData) : Type 0 where
  pub trace_bytes : All IsByte s.span_context.trace_id
  pub span_bytes : All IsByte s.span_context.span_id
  pub parent_bytes : All IsByte s.parent_span_id
  pub parent_length : length s.parent_span_id ≡ 8
  pub started : IsTime s.start_time
  pub ended : IsTime s.end_time
  pub typed : All IsAttr s.attributes
  pub recorded : All IsEvent s.events

digits_positive :
    (fuel n : ℕ) (s : Text) → is_negative s ≡ false → is_negative (digits fuel n s) ≡ false
unfolding digits
digits_positive zero n s h = h
digits_positive (suc fuel) n s h = elim (Bool-cases (ltb n 10)) [
  | inl e ↦ rw e (ground arith)
  | inr e ↦ rw e (digits_positive fuel (n / 10) ((b'0' + n % 10) ∷ s) (ground arith))
]

read_int-format_int : (x : ℤ) → IsInt64 x → read_int (format_int x) ≡ x
unfolding read_int format_int
read_int-format_int (pos n) h =
    let plus : is_negative (format_unsigned n) ≡ false = digits_positive 20 n [] refl in
    rw (plus, read_digits-format_unsigned n (omega arith)) refl
read_int-format_int (negsuc n) h =
    rw (read_digits-format_unsigned (n + 1) (omega arith)) (ap negsuc (omega arith))

read_attrs-to_otlp_attrs :
    (attrs : List KeyValue) → All IsAttr attrs → read_attrs (to_otlp_attrs attrs) ≡ attrs
unfolding read_attrs read_value to_otlp_attrs to_any_value
read_attrs-to_otlp_attrs [] h = refl
read_attrs-to_otlp_attrs (kv ∷ attrs) (typed, h) =
    ap₂ (λ v rest. record { key = kv.key; value = v } ∷ rest) (same kv.value typed)
      (read_attrs-to_otlp_attrs attrs h)
  where
    same : (v : Value) → IsAttr (record { key = []; value = v }) → read_value (to_any_value v) ≡ v
    same (string x) t = refl
    same (bool x) t = refl
    same (int64 x) t = ap int64 (read_int-format_int x t)
    same (int x) t = absurd t
    same (float64 x) t = refl
    same (other x) t = absurd t

read_time-nanos : (t : Time) → IsTime t → read_time (nanos t) ≡ t
unfolding read_time nanos
read_time-nanos none h = refl
read_time-nanos (some n) (positive, fits) =
    let e : (n == 0) ≡ false = ground arith in
    rw (read_digits-format_unsigned n (omega arith), e) refl

read_events-to_otlp_events :
    (events : List Event) → All IsEvent events → read_events (to_otlp_events events) ≡ events
unfolding read_events to_otlp_events
read_events-to_otlp_events [] h = refl
read_events-to_otlp_events (e ∷ events) ((at, typed), h) =
    rw
      (
        read_time-nanos e.event_time at,
        read_attrs-to_otlp_attrs e.event_attributes typed,
        read_events-to_otlp_events events h,
      )
      refl

is_zero-zeros : (id : IdBytes) → is_zero id ≡ true → id ≡ zeros (length id)
unfolding is_zero
is_zero-zeros [] h = refl
is_zero-zeros (b ∷ id) h =
    let eb : b ≡ 0 = ground arith in
    let rest : is_zero id ≡ true = ground arith in ap₂ (◌∷◌) eb (is_zero-zeros id rest)

read_parent-parent_hex :
    (id : IdBytes) → All IsByte id → length id ≡ 8 → read_parent (parent_hex id) ≡ id
unfolding read_parent parent_hex is_zero hex
read_parent-parent_hex [] h l = absurd (omega arith)
read_parent-parent_hex (b ∷ id) h l = elim (Bool-cases (is_zero (b ∷ id))) [
  | inl e ↦ rw e (sym (is_zero-zeros (b ∷ id) e ∙ ap zeros l))
  | inr e ↦ rw (e, parent_hex) (unhex-hex (b ∷ id) h)
]

text_zero : (m : Text) → is_empty m ≡ true → m ≡ []
unfolding is_empty
text_zero [] h = refl
text_zero (c ∷ m) h = cc

read_status-to_otlp_status : (s : Status) → read_status (to_otlp_status s) ≡ s
unfolding read_status to_otlp_status
read_status-to_otlp_status s =
    elim (Bool-cases (not (s.code == status_unset) || not (is_empty s.message))) [
      | inl e ↦ rw (e, to_otlp_status) refl
      | inr e ↦
          let zero_code : s.code ≡ status_unset = ground arith in
          let no_text : is_empty s.message ≡ true = ground arith in
          rw (e, to_otlp_status)
            (ap₂ (λ c m. record { code = c; message = m }) (sym zero_code)
              (sym (text_zero s.message no_text)))
    ]

-- A span whose ids are bytes, whose times fit in 64 bits and whose attributes are typed is read back
-- from its wire form as it was.
pub read_span-to_otlp_span : (s : SpanData) → IsSpan s → read_span (to_otlp_span s) ≡ s
unfolding read_span to_otlp_span
read_span-to_otlp_span s h =
    rw
      (
        unhex-hex s.span_context.trace_id h.trace_bytes,
        unhex-hex s.span_context.span_id h.span_bytes,
        read_parent-parent_hex s.parent_span_id h.parent_bytes h.parent_length,
        read_time-nanos s.start_time h.started,
        read_time-nanos s.end_time h.ended,
        read_attrs-to_otlp_attrs s.attributes h.typed,
        read_events-to_otlp_events s.events h.recorded,
        read_status-to_otlp_status s.status,
      )
      refl

-- The traces payload says every span that was handed over, once and in order.
pub read_spans-build_traces_payload :
    (resource : List KeyValue) (scope : Scope) (spans : List SpanData)
    → All IsSpan spans
    → map read_span (build_traces_payload resource scope spans).records ≡ spans
unfolding build_traces_payload
read_spans-build_traces_payload resource scope [] h = refl
read_spans-build_traces_payload resource scope (s ∷ spans) (hs, h) =
    ap₂ (◌∷◌) (read_span-to_otlp_span s hs) (read_spans-build_traces_payload resource scope spans h)
