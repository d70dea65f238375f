-- ===== src/Traces/Copies.antt =====
-- The texts that the panel of a trace copies, and the pages that it leads to:
-- features/traces/components/TracePanel.tsx.
use everyup.Common.{
  ℕ, String, Option, some, none, List, [], ◌∷◌, ◌++◌, ◌||◌, not, if◌then◌else◌, ◌==◌, ◌+++◌, ltb,
  map, keep, decimal,
}
use everyup.Api.Logs.{ApiRequest}
use everyup.Traces.Spans.{TraceSpan, CapturedBody, HeaderEntry, CapturedHeaders, span_name}

-- formatDuration, with `toFixed` of the seconds as `seconds`.
unfoldable pub format_duration : (ℕ → String) → ℕ → String
format_duration seconds ms =
    if ltb ms 1 then "<1ms" else if ltb ms 1000 then decimal ms +++ "ms" else seconds ms +++ "s"

-- `parts.filter(Boolean).join(separator)`.
abbrev join_with : String → List String → String
join_with sep [] = ""
join_with sep (x ∷ []) = x
join_with sep (x ∷ y ∷ ys) = x +++ sep +++ join_with sep (y ∷ ys)

abbrev parts : String → List String → String
parts sep xs = join_with sep (keep (λ x. not (x == "")) xs)

abbrev part : String → Option String → String
part label none = ""
part label (some v) = if v == "" then "" else label +++ v

abbrev status_part : Option String → String
status_part none = ""
status_part (some v) = if v == "" || (v == "UNSET") then "" else "status=" +++ v

unfoldable pub format_span_copy : (ℕ → String) → TraceSpan → String
unfolding format_duration
format_span_copy seconds s = parts " " (
    ("kind=" +++ s.kind)
    ∷ ("name=" +++ span_name s)
    ∷ part "service=" s.service_name
    ∷ status_part s.status_code
    ∷ ("duration=" +++ format_duration seconds s.duration_ms)
    ∷ ("traceId=" +++ s.trace_id)
    ∷ ("spanId=" +++ s.span_id)
    ∷ [])

unfoldable pub format_api_request_copy : (ℕ → String) → ApiRequest → String
unfolding format_duration
format_api_request_copy seconds r = parts " " (
    ("method=" +++ r.method)
    ∷ ("path=" +++ r.path)
    ∷ ("status=" +++ decimal r.status_code)
    ∷ ("duration=" +++ format_duration seconds r.duration_ms)
    ∷ part "service=" r.service_name
    ∷ part "traceId=" r.trace_id
    ∷ part "spanId=" r.span_id
    ∷ [])

-- The body as it is copied, with toLowerCase as `lower`.
unfoldable pub format_captured_body_copy : (String → String) → CapturedBody → String
format_captured_body_copy lower b = parts "\n" (
    (lower b.label +++ " body")
    ∷ part "service=" b.service_name
    ∷ ("span=" +++ b.span_name)
    ∷ (if b.truncated then "truncated=true" else "")
    ∷ b.body
    ∷ [])

abbrev header_lines : String → List HeaderEntry → List String
header_lines title [] = []
header_lines title (h ∷ hs) = title ∷ map (λ x. x.name +++ ": " +++ x.value) (h ∷ hs)

unfoldable pub format_captured_headers_copy : CapturedHeaders → String
format_captured_headers_copy c = parts "\n" (
    part "service=" c.service_name
    ∷ ("span=" +++ c.span_name)
    ∷ (header_lines "[request headers]" c.request ++ header_lines "[response headers]" c.response))

-- The two lists that a panel can lead to.
pub data TraceTarget : Type 0 where
  agent : (agent_id service_key : String) → TraceTarget
  direct : (observed_service_id : String) → TraceTarget

pub data TraceTab : Type 0 where
  logs requests : TraceTab

abbrev tab_text : TraceTab → String
tab_text TraceTab.logs = "logs"
tab_text TraceTab.requests = "requests"

-- traceTargetPath, with encodeURIComponent as `encode`.
unfoldable pub trace_target_path : (String → String) → TraceTarget → TraceTab → String → String
trace_target_path encode (agent a k) tab t =
    "/services/"
    +++ a
    +++ "/"
    +++ encode k
    +++ "?tab="
    +++ tab_text tab
    +++ "&traceId="
    +++ encode t
trace_target_path encode (direct s) TraceTab.logs t = "/logs/" +++ s +++ "?traceId=" +++ encode t
trace_target_path encode (direct s) TraceTab.requests t = "/api/" +++ s +++ "?traceId=" +++ encode t
