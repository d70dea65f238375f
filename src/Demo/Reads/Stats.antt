-- ===== src/Demo/Reads/Stats.antt =====
-- Statistics of API requests in the demo: mockRequestStats and mockRequestStatusSummary of
-- services/mockRouter.ts.
use everyup.Common.{
  ℕ, zero, suc, ◌+◌, ◌-◌, ◌*◌, ◌/◌, ◌≤◌, ◌<◌, String, Bool, true, false, Option, some, none, List,
  [], ◌∷◌, ◌++◌, ◌≡◌, refl, if◌then◌else◌, ◌==◌, ◌+++◌, ◌&&◌, ltb, leb, nat_eq, map, length, keep,
  sort_by, or_else, arith, ap, upsert, values, sum_of, sum_of-upsert, sum_of-sort_by, length-append,
}
use everyup.Api.Logs.{ApiRequest}

abbrev item : ℕ → List ℕ → Option ℕ
item k [] = none
item zero (x ∷ xs) = some x
item (suc k) (x ∷ xs) = item k xs

-- `Math.max(0, Math.ceil(n * p / 100) - 1)`.
abbrev rank : ℕ → ℕ → ℕ
rank p n = (n * p + 99) / 100 - 1

percentile : ℕ → List ℕ → ℕ
percentile p values = or_else (item (rank p (length values)) values) 0

-- ApiRequestStatBucket, with `timed`.
pub record Bucket : Type 0 where
  pub time : ℕ
  pub count : ℕ
  pub error_count : ℕ
  pub p50 : ℕ
  pub p95 : ℕ
  pub p99 : ℕ
  pub timed : ℕ

bucket_of : ℕ × List ApiRequest → Bucket
unfolding percentile sort_by
bucket_of (start, batch) =
    let values = sort_by leb (keep (λ v. ltb 0 v) (map (λ r. r.duration_ms) batch)) in
    record {
      time = start;
      count = length batch;
      error_count = length (keep (λ r. r.is_error) batch);
      p50 = percentile 50 values;
      p95 = percentile 95 values;
      p99 = percentile 99 values;
      timed = length values;
    }

-- The Map of the groups by the start of their bucket.
abbrev group_row : ℕ → ApiRequest → List (ℕ × List ApiRequest) → List (ℕ × List ApiRequest)
group_row width r m =
    let start = r.created_at / width * width in
    upsert (λ k. nat_eq k start) start (r ∷ []) (λ g. g ++ r ∷ []) m

grouped : ℕ → List ApiRequest → List (ℕ × List ApiRequest) → List (ℕ × List ApiRequest)
grouped width [] m = m
grouped width (r ∷ rs) m = grouped width rs (group_row width r m)

abbrev earlier : ℕ × List ApiRequest → ℕ × List ApiRequest → Bool
earlier a b = leb a.0 b.0

pub record Stats : Type 0 where
  pub buckets : List Bucket
  pub truncated : Bool

-- `mockRequestStats`, on the rows of the endpoint and the width of a bucket.
unfoldable pub mock_request_stats : ℕ → List ApiRequest → Stats
unfolding bucket_of grouped sort_by
mock_request_stats width rows =
    if ltb 100000 (length rows) then record { buckets = []; truncated = true } else record {
      buckets = map bucket_of (sort_by earlier (grouped width rows []));
      truncated = false;
    }

abbrev batch_size : ℕ × List ApiRequest → ℕ
batch_size g = length g.1

sizes-values : (m : List (ℕ × List ApiRequest)) → sum_of batch_size m ≡ sum_of length (values m)
sizes-values [] = refl
sizes-values ((k, g) ∷ m) = omega (arith, sizes-values m)

longer : (r : ApiRequest) (g : List ApiRequest) → length (g ++ r ∷ []) ≡ length g + 1
longer r g = length-append g (r ∷ [])

sizes-grouped :
    (width : ℕ) (rows : List ApiRequest) (m : List (ℕ × List ApiRequest))
    → sum_of length (values (grouped width rows m)) ≡ sum_of length (values m) + length rows
unfolding grouped
sizes-grouped width [] m = omega arith
sizes-grouped width (r ∷ rs) m =
    let a = sizes-grouped width rs (group_row width r m) in
    let b =
      sum_of-upsert length 1 (λ k. nat_eq k (r.created_at / width * width))
        (r.created_at / width * width) (r ∷ []) (λ g. g ++ r ∷ []) m refl (longer r) in
    omega (arith, a, b)

counts-buckets :
    (gs : List (ℕ × List ApiRequest))
    → sum_of (λ b. b.count) (map bucket_of gs) ≡ sum_of batch_size gs
unfolding bucket_of
counts-buckets [] = refl
counts-buckets (g ∷ gs) = ap (λ n. length g.1 + n) (counts-buckets gs)

few_rows : (n k : ℕ) → n ≤ k → ltb k n ≡ false
few_rows n k h = ground arith

many_rows : (n k : ℕ) → k < n → ltb k n ≡ true
many_rows n k h = ground arith

charted :
    (width : ℕ) (rows : List ApiRequest)
    → sum_of (λ b. b.count) (map bucket_of (sort_by earlier (grouped width rows []))) ≡ length rows
charted width rows =
    let a = counts-buckets (sort_by earlier (grouped width rows [])) in
    let b = sum_of-sort_by earlier batch_size (grouped width rows []) in
    let c = sizes-values (grouped width rows []) in
    let d = sizes-grouped width rows [] in omega (arith, a, b, c, d)

-- The chart counts every request of the list below it once: the counts of its buckets add up to the
-- number of rows, unless there are more than 100000, which are not charted at all.
pub mock_request_stats_total :
    (width : ℕ) (rows : List ApiRequest)
    → (length rows ≤ 100000
        → ((mock_request_stats width rows).truncated ≡ false)
          × (sum_of (λ b. b.count) (mock_request_stats width rows).buckets ≡ length rows))
      × (100000 < length rows
          → mock_request_stats width rows ≡ record { buckets = []; truncated = true })
unfolding mock_request_stats
mock_request_stats_total width rows = (
  λ h. rw (few_rows (length rows) 100000 h) (refl, charted width rows),
  λ h. rw (many_rows (length rows) 100000 h) refl,
)

-- ApiRequestStatusSummary.
pub record StatusSummary : Type 0 where
  pub count2xx : ℕ
  pub count3xx : ℕ
  pub count4xx : ℕ
  pub count5xx : ℕ
  pub count_other : ℕ
  pub top5xx_method : Option String
  pub top5xx_path : Option String
  pub top5xx_count : Option ℕ

abbrev between : ℕ → ℕ → ApiRequest → Bool
between a b r = leb a r.status_code && ltb r.status_code b

abbrev group_path : ApiRequest → List (String × List ApiRequest) → List (String × List ApiRequest)
group_path r m =
    let key = r.method +++ " " +++ r.path_template in
    upsert (λ k. k == key) key (r ∷ []) (λ g. g ++ r ∷ []) m

by_path : List ApiRequest → List (String × List ApiRequest) → List (String × List ApiRequest)
by_path [] m = m
by_path (r ∷ rs) m = by_path rs (group_path r m)

abbrev more_rows : List ApiRequest → List ApiRequest → Bool
more_rows a b = leb (length b) (length a)

abbrev first_group : List (List ApiRequest) → List ApiRequest
first_group [] = []
first_group (g ∷ gs) = g

-- `top?.[0].field` and `top?.length`; no group is empty.
abbrev top_method : List ApiRequest → Option String
top_method [] = none
top_method (r ∷ rs) = some r.method

abbrev top_path : List ApiRequest → Option String
top_path [] = none
top_path (r ∷ rs) = some r.path_template

abbrev top_count : List ApiRequest → Option ℕ
top_count [] = none
top_count (r ∷ rs) = some (length (r ∷ rs))

unfoldable pub mock_request_status_summary : List ApiRequest → StatusSummary
unfolding by_path sort_by
mock_request_status_summary rows =
    let errors = keep (λ r. leb 500 r.status_code) rows in
    let top = first_group (sort_by more_rows (values (by_path errors []))) in
    record {
      count2xx = length (keep (between 200 300) rows);
      count3xx = length (keep (between 300 400) rows);
      count4xx = length (keep (between 400 500) rows);
      count5xx = length errors;
      count_other = length (keep (λ r. ltb r.status_code 200) rows);
      top5xx_method = top_method top;
      top5xx_path = top_path top;
      top5xx_count = top_count top;
    }

classes_total :
    (rows : List ApiRequest)
    → length (keep (between 200 300) rows)
        + length (keep (between 300 400) rows)
        + length (keep (between 400 500) rows)
        + length (keep (λ r. leb 500 r.status_code) rows)
        + length (keep (λ r. ltb r.status_code 200) rows)
      ≡ length rows
classes_total [] = refl
classes_total (r ∷ rs) = ground (arith, classes_total rs)

-- The classes of the summary count every request once.
pub mock_request_status_summary_total :
    (rows : List ApiRequest)
    → (mock_request_status_summary rows).count2xx
        + (mock_request_status_summary rows).count3xx
        + (mock_request_status_summary rows).count4xx
        + (mock_request_status_summary rows).count5xx
        + (mock_request_status_summary rows).count_other
      ≡ length rows
unfolding mock_request_status_summary
mock_request_status_summary_total rows = classes_total rows

-- No request is counted twice or left out: the counts of the chart's buckets add up to the number
-- of rows, unless there are more than 100000, which are not charted at all, and so do the classes
-- of the summary.
pub requests_counted_once :
    (width : ℕ) (rows : List ApiRequest)
    → ((length rows ≤ 100000
          → ((mock_request_stats width rows).truncated ≡ false)
            × (sum_of (λ b. b.count) (mock_request_stats width rows).buckets ≡ length rows))
        × (100000 < length rows
            → mock_request_stats width rows ≡ record { buckets = []; truncated = true }))
      × ((mock_request_status_summary rows).count2xx
            + (mock_request_status_summary rows).count3xx
            + (mock_request_status_summary rows).count4xx
            + (mock_request_status_summary rows).count5xx
            + (mock_request_status_summary rows).count_other
          ≡ length rows)
requests_counted_once width rows =
    (mock_request_stats_total width rows, mock_request_status_summary_total rows)
