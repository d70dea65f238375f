-- ===== src/Demo/Reads/Query.antt =====
-- The query of a reading request, its filters and its pages: services/mockRouter.ts.
use everyup.Common.{
  ℕ, ◌+◌, ◌≤◌, String, Bool, true, false, Option, some, none, List, [], ◌∷◌, ◌++◌, ◌≡◌, refl,
  if◌then◌else◌, ◌==◌, ◌+++◌, not, ◌&&◌, ◌||◌, leb, nat_eq, length, take, drop, keep, or_else,
  take-drop_split, drop-drop, take_all, sym,
}
use everyup.Api.Logs.{LogEntry, LogLevel, ApiRequest}

-- `new URLSearchParams(...)`, by its `get`.
abbrev pub Query : Type 0
Query = String → Option String

-- What the platform does to texts: toLowerCase, includes, Number of a text of digits, Date.parse,
-- and `replace(/\d+/g, '#')`. Texts of instants in ISO form are ordered as the instants are.
pub record Platform : Type 0 where
  pub lower : String → String
  pub contains : String → String → Bool
  pub number : String → ℕ
  pub instant : String → ℕ
  pub mask : String → String

-- An absent or empty value is falsy.
abbrev pub text : Option String → Option String
text none = none
text (some v) = if v == "" then none else some v

abbrev pub level_name : LogLevel → String
level_name LogLevel.error = "error"
level_name LogLevel.warn = "warn"
level_name LogLevel.info = "info"
level_name LogLevel.debug = "debug"
level_name LogLevel.trace = "trace"

abbrev pub mock_fingerprint : Platform → LogLevel → String → String
mock_fingerprint w level message = level_name level +++ ":" +++ w.mask message

-- `!wanted || test(wanted)`.
abbrev wanted : Option String → (String → Bool) → Bool
wanted none test = true
wanted (some v) test = test v

abbrev equals : Option String → String → Bool
equals none v = false
equals (some u) v = u == v

abbrev attribute : String → List (String × String) → Option String
attribute k [] = none
attribute k ((j, v) ∷ m) = if j == k then some v else attribute k m

abbrev matches_attribute : Query → LogEntry → Bool
matches_attribute q log = wanted (text (q "attrKey")) (λ key. elim log.attributes [
  | none ↦ false
  | some m ↦ equals (attribute key m) (or_else (q "attrValue") "")
])

abbrev pub shows_log : Platform → Query → LogEntry → Bool
shows_log w q log =
    wanted (text (q "level")) (λ v. level_name log.level == v)
    && (wanted (text (q "search")) (λ v. w.contains (w.lower log.message) (w.lower v))
        && (wanted (text (q "traceId")) (equals log.trace_id)
            && (wanted (text (q "fingerprint")) (λ v. mock_fingerprint w log.level log.message == v)
                && (matches_attribute q log
                    && wanted (text (q "from")) (λ v. leb (w.instant v) log.created_at)))))

unfoldable pub filter_mock_logs : Platform → Query → List LogEntry → List LogEntry
filter_mock_logs w q rows = keep (shows_log w q) rows

-- `Number(value ?? d)`.
abbrev pub number_or : Platform → Option String → ℕ → ℕ
number_or w none d = d
number_or w (some v) d = w.number v

-- `Number(query.get(key) ?? 0)`, where 0 is falsy.
abbrev bound : Platform → Query → String → ℕ
bound w q key = number_or w (q key) 0

abbrev pub shows_request : Platform → Query → ApiRequest → Bool
shows_request w q r =
    (not (equals (q "errorsOnly") "true") || r.is_error)
    && (wanted (text (q "traceId")) (equals r.trace_id)
        && (wanted (text (q "search")) (λ v. w.contains (w.lower r.path) (w.lower v))
            && (wanted (text (q "from")) (λ v. leb (w.instant v) r.created_at)
                && (wanted (text (q "to")) (λ v. leb r.created_at (w.instant v))
                    && ((nat_eq (bound w q "minStatus") 0
                          || leb (bound w q "minStatus") r.status_code)
                        && (nat_eq (bound w q "maxStatus") 0
                            || leb r.status_code (bound w q "maxStatus")))))))

unfoldable pub filter_mock_requests : Platform → Query → List ApiRequest → List ApiRequest
filter_mock_requests w q rows = keep (shows_request w q) rows

pub record Paged {ℓ} (A : Type ℓ) : Type ℓ where
  pub rows : List A
  pub total : ℕ

unfoldable pub page_mock_rows {ℓ} : {A : Type ℓ} → Platform → List A → Query → Paged A
page_mock_rows w rows q = record {
  rows = take (number_or w (q "limit") 100) (drop (number_or w (q "offset") 0) rows);
  total = length rows;
}

-- The query of the page that a list of rows is read by.
abbrev pub page_query : String → String → Query
page_query offset limit k =
    if k == "offset" then some offset else if k == "limit" then some limit else none

-- A page and the page that starts where it ends are together one page of both sizes, a page from the
-- start at least as long as the list is the whole list, and the total of a page is the number of all
-- rows.
pub page_mock_rows_lem :
    {A : Type 0} (w : Platform) (rows : List A) (o l o2 l2 l3 : String)
    → w.number o2 ≡ w.number o + w.number l
    → w.number l3 ≡ w.number l + w.number l2
    → ((page_mock_rows w rows (page_query o l)).rows
          ++ (page_mock_rows w rows (page_query o2 l2)).rows
        ≡ (page_mock_rows w rows (page_query o l3)).rows)
      × ((w.number o ≡ 0
            → length rows ≤ w.number l
            → (page_mock_rows w rows (page_query o l)).rows ≡ rows)
          × ((page_mock_rows w rows (page_query o l)).total ≡ length rows))
unfolding page_mock_rows
page_mock_rows_lem w rows o l o2 l2 l3 h k = (
  rw (h, k, sym (drop-drop (w.number o) (w.number l) rows))
      (take-drop_split (w.number l) (w.number l2) (drop (w.number o) rows)),
  (λ e f. rw e (take_all (w.number l) rows f), refl),
)
