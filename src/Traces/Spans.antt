-- ===== src/Traces/Spans.antt =====
-- What the panel of a trace takes from its spans, and the texts that it copies:
-- features/traces/components/TracePanel.tsx.
use everyup.Common.{
  ℕ, ◌+◌, String, Bool, true, false, Option, some, none, List, [], ◌∷◌, ◌++◌, ◌&&◌, ◌||◌, not,
  if◌then◌else◌, ◌==◌, ◌+++◌, map, keep, sort_by, length, or_else, decimal, after_prefix,
}

-- A value of an attribute: an array is that of its elements as `String` shows them, `other` is any
-- other value as `String` shows it, and `nothing` is null or undefined.
pub data AttrValue : Type 0 where
  text : String → AttrValue
  number : ℕ → AttrValue
  flag : Bool → AttrValue
  array : List String → AttrValue
  other : String → AttrValue
  nothing : AttrValue

abbrev pub Attributes : Type 0
Attributes = List (String × AttrValue)

pub record TraceSpanEvent : Type 0 where
  pub name : String
  pub time_unix_nano : Option ℕ
  pub attributes : Attributes

-- The fields of a span that the panel reads; absent events and attributes are empty lists.
pub record TraceSpan : Type 0 where
  pub trace_id : String
  pub span_id : String
  pub name : String
  pub kind : String
  pub service_name : Option String
  pub status_code : Option String
  pub duration_ms : ℕ
  pub attributes : Attributes
  pub events : List TraceSpanEvent

pub record CapturedBody : Type 0 where
  pub id : String
  pub label : String
  pub body : String
  pub span_name : String
  pub service_name : Option String
  pub size : Option ℕ
  pub truncated : Bool

abbrev attribute : String → Attributes → AttrValue
attribute k [] = AttrValue.nothing
attribute k ((j, v) ∷ m) = if j == k then v else attribute k m

abbrev as_text : AttrValue → String
as_text (AttrValue.text s) = s
as_text _ = ""

abbrev as_number : AttrValue → Option ℕ
as_number (AttrValue.number n) = some n
as_number _ = none

abbrev as_flag : AttrValue → Bool
as_flag (AttrValue.flag b) = b
as_flag _ = false

abbrev pub attr_string : Attributes → String → String
attr_string m k = as_text (attribute k m)

abbrev pub attr_number : Attributes → String → Option ℕ
attr_number m k = as_number (attribute k m)

abbrev pub attr_bool : Attributes → String → Bool
attr_bool m k = as_flag (attribute k m)

unfoldable pub captured_body_label : String → String
captured_body_label e =
    if e == "request_body_masked" then "요청" else if e == "response_body_masked" then "응답" else "바디"

-- `name || '(unnamed)'`.
abbrev pub span_name : TraceSpan → String
span_name s = if s.name == "" then "(unnamed)" else s.name

abbrev pub is_captured : TraceSpanEvent → Bool
is_captured e = e.name == "request_body_masked" || (e.name == "response_body_masked")

abbrev pub captured_body : TraceSpan → TraceSpanEvent → CapturedBody
captured_body s e = record {
  id =
      s.trace_id
      +++ "-"
      +++ s.span_id
      +++ "-"
      +++ e.name
      +++ "-"
      +++ decimal (or_else e.time_unix_nano 0);
  label = captured_body_label e.name;
  body = attr_string e.attributes "body";
  span_name = span_name s;
  service_name = s.service_name;
  size = attr_number e.attributes "body_size";
  truncated = attr_bool e.attributes "body_truncated";
}

abbrev pub has_body : CapturedBody → Bool
has_body b = not (b.body == "")

abbrev pub captured_events : TraceSpan → List TraceSpanEvent
captured_events s = keep is_captured s.events

unfoldable pub extract_captured_bodies : List TraceSpan → List CapturedBody
extract_captured_bodies [] = []
extract_captured_bodies (s ∷ ss) =
    keep has_body (map (captured_body s) (captured_events s)) ++ extract_captured_bodies ss

abbrev pub is_redacted : TraceSpanEvent → Bool
is_redacted e = is_captured e && attr_bool e.attributes "body_redacted"

unfoldable pub count_redacted_bodies : List TraceSpan → ℕ
count_redacted_bodies [] = 0
count_redacted_bodies (s ∷ ss) = length (keep is_redacted s.events) + count_redacted_bodies ss

pub record HeaderEntry : Type 0 where
  pub name : String
  pub value : String

pub record CapturedHeaders : Type 0 where
  pub id : String
  pub span_name : String
  pub service_name : Option String
  pub request : List HeaderEntry
  pub response : List HeaderEntry

abbrev join_text : List String → String
join_text [] = ""
join_text (x ∷ []) = x
join_text (x ∷ y ∷ ys) = x +++ ", " +++ join_text (y ∷ ys)

-- `String` of a number or a flag.
unfoldable pub header_value : AttrValue → String
header_value (AttrValue.text s) = s
header_value (AttrValue.number n) = decimal n
header_value (AttrValue.flag true) = "true"
header_value (AttrValue.flag false) = "false"
header_value (AttrValue.array xs) = join_text xs
header_value (AttrValue.other s) = s
header_value AttrValue.nothing = ""

abbrev pub request_prefix : String
request_prefix = "http.request.header."

abbrev pub response_prefix : String
response_prefix = "http.response.header."

abbrev entry : String → AttrValue → HeaderEntry
entry name v = record { name = name; value = header_value v }

-- The entries pushed to `request`, and in the `else` of that test, those pushed to `response`.
unfoldable pub request_headers : Attributes → List HeaderEntry
request_headers [] = []
request_headers ((k, v) ∷ m) = elim (after_prefix request_prefix k) [
  | some name ↦ entry name v ∷ request_headers m
  | none ↦ request_headers m
]

unfoldable pub response_headers : Attributes → List HeaderEntry
response_headers [] = []
response_headers ((k, v) ∷ m) = elim (after_prefix request_prefix k) [
  | some name ↦ response_headers m
  | none ↦ elim (after_prefix response_prefix k) [
    | some name ↦ entry name v ∷ response_headers m
    | none ↦ response_headers m
  ]
]

abbrev is_nil : List HeaderEntry → Bool
is_nil [] = true
is_nil (x ∷ xs) = false

-- `le a b` says that `a.localeCompare(b)` is not above zero.
abbrev pub by_name : (String → String → Bool) → HeaderEntry → HeaderEntry → Bool
by_name le a b = le a.name b.name

abbrev pub headers_of : (String → String → Bool) → TraceSpan → CapturedHeaders
headers_of le s = record {
  id = s.trace_id +++ "-" +++ s.span_id +++ "-headers";
  span_name = span_name s;
  service_name = s.service_name;
  request = sort_by (by_name le) (request_headers s.attributes);
  response = sort_by (by_name le) (response_headers s.attributes);
}

unfoldable pub extract_captured_headers :
    (String → String → Bool) → List TraceSpan → List CapturedHeaders
extract_captured_headers le [] = []
extract_captured_headers le (s ∷ ss) =
    let rest = extract_captured_headers le ss in
    if is_nil (request_headers s.attributes) && is_nil (response_headers s.attributes)
    then rest
    else headers_of le s ∷ rest
