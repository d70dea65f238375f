-- ===== src/Logs/PanelTests.antt =====
-- Runs of the panel of logs.
use everyup.Common.{ℕ, ◌+◌, ◌-◌, ◌*◌, ◌≤◌, false, some, none, List, [], ◌∷◌, ◌≡◌, take, drop, arith}
use everyup.Api.Logs.{LogEntry, LogLevel}
use everyup.Logs.Panel.{
  GlobalTimeRange, Panel, LogPage, new_panel, toggle_live, is_stranded, page_size, first_shown,
  last_shown, total_pages,
}
use everyup.Logs.Paging.{
  IsOnPage, PanelReached, PanelEvent, PanelReached-IsOnPage, fetch_until, fetch_until_settles,
  shown_range,
}
use everyup.Logs.Paging

abbrev fresh : Panel
fresh = new_panel GlobalTimeRange.h24 none none

live-PanelReached : PanelReached (toggle_live fresh)
live-PanelReached =
    Paging.next fresh _ (Paging.opened GlobalTimeRange.h24 none none) Paging.live_toggled

PanelReached-IsOnPage_example : IsOnPage (toggle_live fresh)
PanelReached-IsOnPage_example = PanelReached-IsOnPage (toggle_live fresh) live-PanelReached

-- Three rows, all of them on the first page.
abbrev entry : ℕ → LogEntry
entry id = record {
  id = id;
  service_id = "s1";
  agent_id = none;
  service_name = none;
  level = LogLevel.info;
  message = "ready";
  attributes = none;
  trace_id = none;
  span_id = none;
  created_at = 100;
}

abbrev three : List LogEntry
three = entry 1 ∷ entry 2 ∷ entry 3 ∷ []

abbrev answer : ℕ → LogPage
answer n = record { rows = take page_size (drop ((n - 1) * page_size) three); total = 3 }

abbrev third_page : Panel
third_page = record fresh { page = 3 }

fetch_until_settles_example :
    (q : Panel) × ((fetch_until answer 2 third_page ≡ some q)
      × ((q.loading ≡ false)
          × ((q.logs ≡ (answer q.page).rows)
              × ((q.total ≡ (answer q.page).total) × (is_stranded (answer q.page) q ≡ false)))))
fetch_until_settles_example = fetch_until_settles answer third_page

shown_range_example :
    (first_shown 1 + 3 ≡ last_shown 1 3 + 1) × ((last_shown 1 3 ≤ 3) × (1 ≤ total_pages 3))
shown_range_example = shown_range three 1 (omega arith) (λ h. ground arith)
