-- ===== src/Traces/Tests.antt =====
-- Runs of the panel of a trace.
use everyup.Common.{
  ◌+◌, String, Bool, true, some, none, [], ◌∷◌, ◌≡◌, refl, All, IsSorted, keep, length,
}
use everyup.Traces.Spans.{
  AttrValue, TraceSpanEvent, TraceSpan, headers_of, by_name, request_prefix, response_prefix,
  extract_captured_bodies, count_redacted_bodies,
}
use everyup.Traces.Headers.{IsHeader, is_other, headers_of_lem}

abbrev shown_event : TraceSpanEvent
shown_event = record {
  name = "request_body_masked";
  time_unix_nano = some 5;
  attributes = ("body", AttrValue.text "{}") ∷ [];
}

abbrev redacted_event : TraceSpanEvent
redacted_event = record {
  name = "response_body_masked";
  time_unix_nano = none;
  attributes = ("body_redacted", AttrValue.flag true) ∷ [];
}

abbrev login_span : TraceSpan
login_span = record {
  trace_id = "t1";
  span_id = "s1";
  name = "";
  kind = "SERVER";
  service_name = some "web";
  status_code = none;
  duration_ms = 12;
  attributes =
      ("http.request.header.accept", AttrValue.text "text/html")
      ∷ ("http.status_code", AttrValue.number 200)
      ∷ [];
  events = shown_event ∷ redacted_event ∷ [];
}

one_shown : length (extract_captured_bodies (login_span ∷ [])) ≡ 1
unfolding extract_captured_bodies
one_shown = refl

-- An order in which all names are level.
abbrev level : String → String → Bool
level a b = true

headers_of_lem_example :
    (IsSorted (by_name level) (headers_of level login_span).request
      × IsSorted (by_name level) (headers_of level login_span).response)
    × ((All (IsHeader request_prefix login_span.attributes) (headers_of level login_span).request
          × All
              (IsHeader response_prefix login_span.attributes)
              (headers_of level login_span).response)
        × (length (headers_of level login_span).request
              + length (headers_of level login_span).response
              + length (keep is_other login_span.attributes)
            ≡ length login_span.attributes))
headers_of_lem_example = headers_of_lem level (λ a b h. refl) (λ a b c h k. refl) login_span

-- A body that is marked as redacted and was not taken out is shown, and counted as redacted too.
abbrev kept_event : TraceSpanEvent
kept_event = record redacted_event {
  attributes = ("body", AttrValue.text "secret") ∷ ("body_redacted", AttrValue.flag true) ∷ [];
}

shown_though_redacted :
    (length (extract_captured_bodies ((record login_span { events = kept_event ∷ [] }) ∷ [])) ≡ 1)
    × (count_redacted_bodies ((record login_span { events = kept_event ∷ [] }) ∷ []) ≡ 1)
unfolding extract_captured_bodies count_redacted_bodies
shown_though_redacted = (refl, refl)
