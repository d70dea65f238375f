-- ===== src/Logs/Panel.antt =====
-- The panel of the logs of a service, its filters, pages and queries: ServiceLogsPanel of
-- features/healthcheck/components/AgentServiceLogsTab.tsx.
use everyup.Common.{
  ℕ, ◌+◌, ◌-◌, ◌*◌, ◌/◌, String, Bool, true, false, Option, some, none, List, [], ◌∷◌, not, ◌&&◌,
  if◌then◌else◌, ◌==◌, ltb, or_else,
}
use everyup.Api.Logs.{LogEntry, LogLevel}

pub data GlobalTimeRange : Type 0 where
  h1 h6 h24 : GlobalTimeRange

pub record RangeBucket : Type 0 where
  pub hours : ℕ
  pub bucket_mins : ℕ

abbrev pub range_bucket : GlobalTimeRange → RangeBucket
range_bucket GlobalTimeRange.h1 = record { hours = 1; bucket_mins = 2 }
range_bucket GlobalTimeRange.h6 = record { hours = 6; bucket_mins = 10 }
range_bucket GlobalTimeRange.h24 = record { hours = 24; bucket_mins = 30 }

abbrev pub same_range : GlobalTimeRange → GlobalTimeRange → Bool
same_range GlobalTimeRange.h1 GlobalTimeRange.h1 = true
same_range GlobalTimeRange.h6 GlobalTimeRange.h6 = true
same_range GlobalTimeRange.h24 GlobalTimeRange.h24 = true
same_range _ _ = false

abbrev pub page_size : ℕ
page_size = 25

pub record AttrFilter : Type 0 where
  pub key : String
  pub value : String

pub record Picked : Type 0 where
  pub from : ℕ
  pub range : GlobalTimeRange

-- The state of the panel, with the parts of the address and of the page that it reads: `pattern`,
-- `trace_id` and `range`. Texts that may be empty are those of inputs.
pub record Panel : Type 0 where
  pub logs : List LogEntry
  pub total : ℕ
  pub loading : Bool
  pub level : Option LogLevel
  pub search : String
  pub input_value : String
  pub attr_filter : Option AttrFilter
  pub pattern : Option String
  pub trace_id : Option String
  pub range : GlobalTimeRange
  pub picked : Option Picked
  pub live : Bool
  pub page : ℕ

unfoldable pub new_panel : GlobalTimeRange → Option String → Option String → Panel
new_panel range pattern trace = record {
  logs = [];
  total = 0;
  loading = true;
  level = none;
  search = "";
  input_value = "";
  attr_filter = none;
  pattern = pattern;
  trace_id = trace;
  range = range;
  picked = none;
  live = false;
  page = 1;
}

-- A picked bucket counts only in the range in which it was picked.
abbrev picked_in : GlobalTimeRange → Option Picked → Option ℕ
picked_in range none = none
picked_in range (some k) = if same_range k.range range then some k.from else none

unfoldable pub active_bucket : Panel → Option ℕ
active_bucket p = picked_in p.range p.picked

abbrev pub bucket_ms : GlobalTimeRange → ℕ
bucket_ms range = (range_bucket range).bucket_mins * 60000

-- The handlers.
abbrev pub select_level : Option LogLevel → Panel → Panel
select_level l p = record p { level = l; page = 1 }

abbrev pub handle_search_submit : Panel → Panel
handle_search_submit p = record p { search = p.input_value; page = 1 }

abbrev pub clear_search : Panel → Panel
clear_search p = record p { search = ""; input_value = ""; page = 1 }

abbrev pub filter_attribute : Option AttrFilter → Panel → Panel
filter_attribute a p = record p { attr_filter = a; page = 1 }

-- `clearParam` of each parameter.
abbrev pub clear_pattern : Panel → Panel
clear_pattern p = record p { pattern = none; page = 1 }

abbrev pub clear_trace_id : Panel → Panel
clear_trace_id p = record p { trace_id = none; page = 1 }

-- A bar that is picked, and the button that drops it.
abbrev pub pick_bucket : ℕ → Panel → Panel
pick_bucket from p = record p { picked = some (record { from = from; range = p.range }); page = 1 }

abbrev pub drop_bucket : Panel → Panel
drop_bucket p = record p { picked = none; page = 1 }

abbrev pub toggle_live : Panel → Panel
toggle_live p = record p { live = not p.live; page = 1 }

unfoldable pub change_page : ℕ → Panel → Panel
change_page n p = record p { page = n; live = if ltb 1 n then false else p.live }

-- The page header's range, and the text in the search box.
abbrev pub change_range : GlobalTimeRange → Panel → Panel
change_range r p = record p { range = r }

abbrev pub type_search : String → Panel → Panel
type_search s p = record p { input_value = s }

pub record LogFilters : Type 0 where
  pub level : Option LogLevel
  pub search : Option String
  pub attr_key : Option String
  pub attr_value : Option String
  pub trace_id : Option String
  pub fingerprint : Option String

abbrev text_or_none : String → Option String
text_or_none s = if s == "" then none else some s

unfoldable pub filters : Panel → LogFilters
filters p = record {
  level = p.level;
  search = text_or_none p.search;
  attr_key = elim p.attr_filter [ none ↦ none | some a ↦ some a.key ];
  attr_value = elim p.attr_filter [ none ↦ none | some a ↦ some a.value ];
  trace_id = p.trace_id;
  fingerprint = p.pattern;
}

-- Instants are in milliseconds.
pub record LogParams : Type 0 where
  pub filters : LogFilters
  pub from : Option ℕ
  pub to : Option ℕ
  pub limit : ℕ
  pub offset : ℕ

-- `traceId` of the address, where an empty text is falsy.
abbrev pub has_trace : Panel → Bool
has_trace p = elim p.trace_id [ none ↦ false | some t ↦ not (t == "") ]

abbrev range_from : ℕ → GlobalTimeRange → ℕ
range_from now r = now - (range_bucket r).hours * 3600 * 1000

abbrev list_from : ℕ → Panel → Option ℕ
list_from now p =
    if has_trace p then none else some (or_else (active_bucket p) (range_from now p.range))

abbrev list_to : Panel → Option ℕ
list_to p =
    if has_trace p
    then none
    else elim (active_bucket p) [ none ↦ none | some b ↦ some (b + bucket_ms p.range) ]

-- The query of the list of logs.
unfoldable pub log_params : ℕ → Panel → LogParams
unfolding filters active_bucket
log_params now p = record {
  filters = filters p;
  from = list_from now p;
  to = list_to p;
  limit = page_size;
  offset = (p.page - 1) * page_size;
}

pub record HistogramParams : Type 0 where
  pub filters : LogFilters
  pub from : ℕ
  pub bucket_mins : ℕ

-- The query of the histogram, or `none` for a trace.
unfoldable pub histogram_params : ℕ → Panel → Option HistogramParams
unfolding filters
histogram_params now p =
    if has_trace p
    then none
    else some (record {
      filters = filters p;
      from = range_from now p.range;
      bucket_mins = (range_bucket p.range).bucket_mins;
    })

-- The answer of the server: its `data`, a page of rows, and their number in all.
pub record LogPage : Type 0 where
  pub rows : List LogEntry
  pub total : ℕ

abbrev pub is_empty : List LogEntry → Bool
is_empty [] = true
is_empty (x ∷ xs) = false

-- Past the last page, the panel goes back to the first.
abbrev pub is_stranded : LogPage → Panel → Bool
is_stranded r p = is_empty r.rows && (ltb 0 r.total && ltb 1 p.page)

-- The answer to `fetch`, and its failure.
unfoldable pub fetched : LogPage → Panel → Panel
fetched r p =
    if is_stranded r p
    then record p { page = 1; loading = false }
    else record p { logs = r.rows; total = r.total; loading = false }

abbrev pub fetch_failed : Panel → Panel
fetch_failed p = record p { loading = false }

-- Math.max(1, Math.ceil(total / PAGE_SIZE)).
unfoldable pub total_pages : ℕ → ℕ
total_pages n = let k = (n + (page_size - 1)) / page_size in if ltb k 1 then 1 else k

-- The two numbers of "N건 중 x~y".
unfoldable pub first_shown : ℕ → ℕ
first_shown page = (page - 1) * page_size + 1

unfoldable pub last_shown : ℕ → ℕ → ℕ
last_shown page n = if ltb (page * page_size) n then page * page_size else n
