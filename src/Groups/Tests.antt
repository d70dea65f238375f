-- ===== src/Groups/Tests.antt =====
-- Runs of the group pages on the sample rows.
use everyup.Demo.Reads.Lists.{HostUsage}
use everyup.Demo.Scenario.{MockScenario}
use everyup.Common.{String, some, [], ◌≡◌, refl, sort_by}
use everyup.Status.Operational.{is_collector_fresh}
use everyup.Demo.Laws.Groups.{answer}
use everyup.Demo.Route.Client.{ProjectsCall}
use everyup.Demo.Samples.{demo_rows, at_noon, fixtures, host}
use everyup.Demo.State.{Body}
use everyup.Groups.Members.{
  AssignableTarget, ProjectSources, project_members, unsorted_members, sources_for_project,
  summarize_members,
}
use everyup.Groups.Order.{by_tone, project_members-by_tone, summarize-project_members}
use everyup.Groups.Assignment.{set_target_group, run_request, group_of, set_target_group_joins}
use everyup.Groups.Deletion.{shown_sources, delete_project_empties}
use everyup.Status.Metrics.{StatusTone}

abbrev shown : ProjectSources
shown = record {
  agents = demo_rows.agents;
  services = demo_rows.services;
  monitors = demo_rows.monitors;
  observed_services = demo_rows.observed;
  infrastructure = demo_rows.infrastructure;
}

project_members-by_tone_example :
    project_members (λ s. s) (λ t. "") 1000000 shown
    ≡ by_tone (unsorted_members (λ s. s) (λ t. "") 1000000 shown)
project_members-by_tone_example = project_members-by_tone (λ s. s) (λ t. "") 1000000 shown

summarize-project_members_example :
    (summarize_members (project_members (λ s. s) (λ t. "") 1000000 shown)).tone ≡ StatusTone.error
unfolding project_members unsorted_members sort_by is_collector_fresh
summarize-project_members_example = summarize-project_members (λ s. s) (λ t. "") 1000000 shown

set_target_group_joins_example :
    group_of
      (AssignableTarget.infra host)
      (run_request at_noon (set_target_group (AssignableTarget.infra host) (some "p1")) demo_rows)
    ≡ some (some "p1")
set_target_group_joins_example =
    set_target_group_joins at_noon (AssignableTarget.infra host) "p1" demo_rows
      (refl, (refl, (refl, tt))) (refl, (refl, (refl, tt)))

abbrev quarter : String → HostUsage
quarter id = record { cpu = 25; memory = 25; disk = 25 }

abbrev left : ProjectSources
left =
    shown_sources fixtures 1000000 quarter MockScenario.attention
      (answer at_noon (ProjectsCall.delete_project "p1") Body.absent demo_rows).0

delete_project_empties_example :
    (project_members (λ s. s) (λ t. "") 1000000 (sources_for_project "p1" left) ≡ [])
    × (summarize_members
          (project_members (λ s. s) (λ t. "") 1000000 (sources_for_project "p1" left))
        ≡ record { tone = StatusTone.idle; label = "대상 없음" })
delete_project_empties_example =
    delete_project_empties at_noon "p1" Body.absent demo_rows fixtures MockScenario.attention
      quarter (λ s. s) (λ t. "") 1000000 (refl, (refl, (refl, tt)))
