-- ===== src/Status/Titles.antt =====
-- Titles and groups of metrics, and the length of an incident: features/metrics/metricPresentation.ts
-- and utils/incidentFormat.ts.
use Prim.Native.Char.{code}
use everyup.Common.{
  ℕ, ◌/◌, ◌%◌, String, Bool, true, false, Option, some, none, List, [], ◌∷◌, ◌&&◌, if◌then◌else◌,
  ◌==◌, ◌+++◌, nat_eq, ltb, any, or_else, decimal,
}
use everyup.Status.Metrics.{OtelMetricName}

-- TITLES.
abbrev titles : List (String × String)
titles =
    ("http.server.request.duration", "응답 시간")
    ∷ ("http.server.duration", "응답 시간")
    ∷ ("http.server.active_requests", "처리 중인 요청")
    ∷ ("http.server.active_requests.count", "처리 중인 요청")
    ∷ ("jvm.memory.used", "JVM 메모리 사용량")
    ∷ ("process.memory.usage", "프로세스 메모리 사용량")
    ∷ ("messaging.process.duration", "메시지 처리 시간")
    ∷ ("queue.messages.pending", "대기 중인 메시지")
    ∷ ("billing.jobs.completed", "완료된 작업")
    ∷ []

abbrev title_in : String → List (String × String) → Option String
title_in k [] = none
title_in k ((j, v) ∷ m) = if j == k then some v else title_in k m

unfoldable pub metric_title : OtelMetricName → String
metric_title m = or_else (title_in m.metric_name titles) m.metric_name

abbrev starts_with : String → String → Bool
starts_with String.[] s = true
starts_with (String.◌∷◌ c p) String.[] = false
starts_with (String.◌∷◌ c p) (String.◌∷◌ d s) =
    let rest = starts_with p s in nat_eq (code c) (code d) && rest

-- The alternatives of one anchored pattern.
abbrev starts_with_any : List String → String → Bool
starts_with_any ps s = any (λ p. starts_with p s) ps

unfoldable pub metric_group : OtelMetricName → String
metric_group m =
    if starts_with_any ("http." ∷ "rpc." ∷ []) m.metric_name
    then "요청과 응답"
    else if starts_with_any ("messaging." ∷ "queue." ∷ "billing." ∷ []) m.metric_name
    then "작업과 메시지"
    else if starts_with_any ("jvm." ∷ "process." ∷ "runtime." ∷ "go." ∷ "dotnet." ∷ "system." ∷ [])
        m.metric_name
    then "런타임과 리소스"
    else "사용자 정의 지표"

-- For whole seconds.
unfoldable pub format_duration : ℕ → String
format_duration sec =
    let m = sec / 60 in
    let h = m / 60 in
    if ltb sec 60
    then decimal sec +++ "초"
    else if ltb m 60
    then decimal m +++ "분"
    else if ltb h 24
    then decimal h +++ "시간 " +++ decimal (m % 60) +++ "분"
    else decimal (h / 24) +++ "일 " +++ decimal (h % 24) +++ "시간"
