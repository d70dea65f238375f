-- ===== src/Logs/Paging.antt =====
-- What holds of the panel of logs whatever is done in it, and that its fetches come to an end:
-- features/healthcheck/components/AgentServiceLogsTab.tsx.
use everyup.Common.{
  ℕ, zero, suc, ◌+◌, ◌-◌, ◌*◌, ◌/◌, ◌≤◌, ◌<◌, String, true, false, Option, some, none, List, [],
  ◌∷◌, ◌≡◌, ◌≢◌, refl, ap, ◌&&◌, if◌then◌else◌, ltb, leb, length, take, drop, arith, Bool-cases,
  ◌∙◌, inl, inr,
}
use everyup.Api.Logs.{LogEntry, LogLevel}
use everyup.Logs.Panel.{
  GlobalTimeRange, AttrFilter, Panel, LogPage, new_panel, select_level, handle_search_submit,
  clear_search, filter_attribute, clear_pattern, clear_trace_id, pick_bucket, drop_bucket,
  toggle_live, change_page, change_range, type_search, fetched, fetch_failed, is_stranded,
  page_size, is_empty, total_pages, first_shown, last_shown,
}

-- What a user or an answer does to the panel; Pagination offers the pages up to the last.
pub data PanelEvent (p : Panel) : Panel → Type 0 where
  level_selected : (l : Option LogLevel) → PanelEvent p (select_level l p)
  search_typed : (s : String) → PanelEvent p (type_search s p)
  search_submitted : PanelEvent p (handle_search_submit p)
  search_cleared : PanelEvent p (clear_search p)
  attribute_filtered : (a : Option AttrFilter) → PanelEvent p (filter_attribute a p)
  pattern_cleared : PanelEvent p (clear_pattern p)
  trace_cleared : PanelEvent p (clear_trace_id p)
  bucket_picked : (from : ℕ) → PanelEvent p (pick_bucket from p)
  bucket_dropped : PanelEvent p (drop_bucket p)
  live_toggled : PanelEvent p (toggle_live p)
  page_changed : (n : ℕ) → 1 ≤ n → n ≤ total_pages p.total → PanelEvent p (change_page n p)
  range_changed : (r : GlobalTimeRange) → PanelEvent p (change_range r p)
  answer_read : (r : LogPage) → PanelEvent p (fetched r p)
  answer_failed : PanelEvent p (fetch_failed p)

pub data PanelReached : Panel → Type 0 where
  opened :
      (r : GlobalTimeRange) (pattern trace : Option String)
      → PanelReached (new_panel r pattern trace)
  next : (p q : Panel) → PanelReached p → PanelEvent p q → PanelReached q

-- Pages count from 1, and the live tail is on only where the newest page is shown.
abbrev pub IsOnPage : Panel → Type 0
IsOnPage p = (1 ≤ p.page) × (p.live ≡ true → p.page ≡ 1)

fetched-IsOnPage : (r : LogPage) (p : Panel) → IsOnPage p → IsOnPage (fetched r p)
unfolding fetched
fetched-IsOnPage r p (h, l) = elim (Bool-cases (is_stranded r p)) [
  | inl e ↦ rw e (omega arith, λ g. refl)
  | inr e ↦ rw e (h, l)
]

changed-IsOnPage : (n : ℕ) (p : Panel) → 1 ≤ n → IsOnPage p → IsOnPage (change_page n p)
unfolding change_page
changed-IsOnPage n p h (g, l) = (h, λ e. ground arith)

PanelEvent-IsOnPage : (p q : Panel) → PanelEvent p q → IsOnPage p → IsOnPage q
PanelEvent-IsOnPage p _ (level_selected l) i = (omega arith, λ e. refl)
PanelEvent-IsOnPage p _ (search_typed s) i = i
PanelEvent-IsOnPage p _ search_submitted i = (omega arith, λ e. refl)
PanelEvent-IsOnPage p _ search_cleared i = (omega arith, λ e. refl)
PanelEvent-IsOnPage p _ (attribute_filtered a) i = (omega arith, λ e. refl)
PanelEvent-IsOnPage p _ pattern_cleared i = (omega arith, λ e. refl)
PanelEvent-IsOnPage p _ trace_cleared i = (omega arith, λ e. refl)
PanelEvent-IsOnPage p _ (bucket_picked from) i = (omega arith, λ e. refl)
PanelEvent-IsOnPage p _ bucket_dropped i = (omega arith, λ e. refl)
PanelEvent-IsOnPage p _ live_toggled i = (omega arith, λ e. refl)
PanelEvent-IsOnPage p _ (page_changed n h k) i = changed-IsOnPage n p h i
PanelEvent-IsOnPage p _ (range_changed r) i = i
PanelEvent-IsOnPage p _ (answer_read r) i = fetched-IsOnPage r p i
PanelEvent-IsOnPage p _ answer_failed i = i

-- In every state that the panel can reach, pages count from 1, and while the live tail is on, the
-- first page, which has the newest logs, is the one that is asked for.
pub PanelReached-IsOnPage : (p : Panel) → PanelReached p → IsOnPage p
unfolding new_panel
PanelReached-IsOnPage _ (opened r pattern trace) = (omega arith, λ e. refl)
PanelReached-IsOnPage _ (next p q r e) = PanelEvent-IsOnPage p q e (PanelReached-IsOnPage p r)

-- The effect that fetches again whenever the page has changed, for a server that gives each page
-- the answer `answer`; `none` if the rounds run out.
unfoldable pub fetch_until : (ℕ → LogPage) → ℕ → Panel → Option Panel
unfolding fetched
fetch_until answer zero p = none
fetch_until answer (suc rounds) p =
    let rest = fetch_until answer rounds (fetched (answer p.page) p) in
    if is_stranded (answer p.page) p then rest else some (fetched (answer p.page) p)

-- Two rounds of fetching are enough, whatever the server answers: the panel then shows the answer
-- for its page, and it has no rows only where there are none, or where the first page has none.
pub fetch_until_settles :
    (answer : ℕ → LogPage) (p : Panel)
    → (q : Panel) × ((fetch_until answer 2 p ≡ some q)
        × ((q.loading ≡ false)
            × ((q.logs ≡ (answer q.page).rows)
                × ((q.total ≡ (answer q.page).total) × (is_stranded (answer q.page) q ≡ false)))))
unfolding fetch_until fetched
fetch_until_settles answer p = elim (Bool-cases (is_stranded (answer p.page) p)) [
  | inr e ↦ (
    record p { logs = (answer p.page).rows; total = (answer p.page).total; loading = false },
    (rw e refl, (refl, (refl, (refl, e)))),
  )
  | inl e ↦ (
    record p { page = 1; logs = (answer 1).rows; total = (answer 1).total; loading = false },
    (rw (e, first_page (answer 1)) refl, (refl, (refl, (refl, first_page (answer 1))))),
  )
]
  where
    first_page : (r : LogPage) → is_empty r.rows && (ltb 0 r.total && false) ≡ false
    first_page r = ground arith

length-take :
    {A : Type 0} (n : ℕ) (xs : List A)
    → length (take n xs) ≡ (if leb n (length xs) then n else length xs)
length-take zero xs = ground arith
length-take (suc n) [] = ground arith
length-take (suc n) (x ∷ xs) = ground (arith, length-take n xs)

length-drop : {A : Type 0} (n : ℕ) (xs : List A) → length (drop n xs) ≡ length xs - n
length-drop zero xs = omega arith
length-drop (suc n) [] = omega arith
length-drop (suc n) (x ∷ xs) = length-drop n xs ∙ omega arith

ne_nil : {A : Type 0} (xs : List A) → xs ≢ [] → 0 < length xs
ne_nil [] h = absurd (h refl)
ne_nil (x ∷ xs) h = omega arith

range_arith :
    (page m n : ℕ)
    → 1 ≤ page
    → n ≡ (if leb 25 (m - (page - 1) * 25) then 25 else m - (page - 1) * 25)
    → 0 < n
    → ((page - 1) * 25 + 1 + n ≡ (if ltb (page * 25) m then page * 25 else m) + 1)
      × (((if ltb (page * 25) m then page * 25 else m) ≤ m)
          × (page ≤ (if ltb ((m + 24) / 25) 1 then 1 else (m + 24) / 25)))
range_arith page m n h e g = ground arith

-- Where a page of 25 of the logs has rows, the two numbers above the list are within the total and
-- count those rows, and the page is one of the pages that are offered.
pub shown_range :
    (all : List LogEntry) (page : ℕ)
    → 1 ≤ page
    → take page_size (drop ((page - 1) * page_size) all) ≢ []
    → (first_shown page + length (take page_size (drop ((page - 1) * page_size) all))
        ≡ last_shown page (length all) + 1)
      × ((last_shown page (length all) ≤ length all) × (page ≤ total_pages (length all)))
unfolding first_shown last_shown total_pages
shown_range all page h ne =
    range_arith page (length all) _ h
      (length-take 25 (drop ((page - 1) * page_size) all)
        ∙ ap (λ m. if leb 25 m then 25 else m) (length-drop ((page - 1) * page_size) all))
      (ne_nil _ ne)
