-- ===== src/Demo/Laws/Identity.antt =====
-- The rows of each kind have ids of their own: services/mockRouter.ts.
pub mod Infrastructure
pub mod Observed
pub mod Members
pub mod Requests
use everyup.Common.{
  String, Bool, true, false, Option, some, none, List, [], ◌∷◌, ◌++◌, ◌≡◌, refl, sym, ap, ◌∙◌,
  or_else, map, includes, ◌+++◌, decimal, arith, Distinct, Distinct-append, keys-update_first,
  keys-map, keys-append, Distinct-remove_first, find, update_first, Option-cases, inl, inr,
}
use everyup.Api.Agents.{ConnectedAgent}
use everyup.Api.Hosts.{InfrastructureResource}
use everyup.Api.Monitors.{UptimeMonitor}
use everyup.Api.Observed.{ObservedService}
use everyup.Api.Projects.{Project}
use everyup.Demo.Route.Mutations.{Method, MemberKind, Mutation, route}
use everyup.Demo.State.{DemoState, Env, Body, Payload, parse, body_id}
use everyup.Demo.Server.{perform, mock_router}

abbrev pub agent_ids : List ConnectedAgent → List String
agent_ids = map (λ r. r.id)

abbrev pub monitor_ids : List UptimeMonitor → List String
monitor_ids = map (λ r. r.id)

abbrev pub project_ids : List Project → List String
project_ids = map (λ r. r.id)

abbrev pub observed_ids : List ObservedService → List String
observed_ids = map (λ r. r.id)

abbrev pub infrastructure_ids : List InfrastructureResource → List String
infrastructure_ids = map (λ r. r.id)

pub record HasDistinctIds (s : DemoState) : Type 0 where
  pub agents : Distinct (agent_ids s.agents)
  pub monitors : Distinct (monitor_ids s.monitors)
  pub projects : Distinct (project_ids s.projects)
  pub observed : Distinct (observed_ids s.observed)
  pub infrastructure : Distinct (infrastructure_ids s.infrastructure)

-- No row has yet the id that this instant gives: no row of the kind was made in the same
-- millisecond.
pub record IsFresh (env : Env) (s : DemoState) : Type 0 where
  pub agents : includes ("agent_mock_" +++ decimal env.now) (agent_ids s.agents) ≡ false
  pub monitors : includes ("uptime_mock_" +++ decimal env.now) (monitor_ids s.monitors) ≡ false
  pub projects : includes ("project_mock_" +++ decimal env.now) (project_ids s.projects) ≡ false
  pub observed : includes ("observed_mock_" +++ decimal env.now) (observed_ids s.observed) ≡ false
  pub infrastructure :
      includes ("infra_mock_" +++ decimal env.now) (infrastructure_ids s.infrastructure) ≡ false

-- A row keeps its id where the body that is assigned to it has none.
pub keeps_id :
    (b : Body) (p : Payload) (id : String)
    → body_id b ≡ none
    → parse b ≡ some p
    → or_else p.id id ≡ id
keeps_id b p id h e =
    ap (λ o. or_else o id) (ap (λ o. elim o [ none ↦ none | some q ↦ q.id ]) (sym e) ∙ h)

-- A state with the same ids, given kind by kind.
pub same_ids :
    (s t : DemoState)
    → agent_ids t.agents ≡ agent_ids s.agents
    → monitor_ids t.monitors ≡ monitor_ids s.monitors
    → project_ids t.projects ≡ project_ids s.projects
    → observed_ids t.observed ≡ observed_ids s.observed
    → infrastructure_ids t.infrastructure ≡ infrastructure_ids s.infrastructure
    → HasDistinctIds s
    → HasDistinctIds t
same_ids s t a m p o i d = record {
  agents = rw a d.agents;
  monitors = rw m d.monitors;
  projects = rw p d.projects;
  observed = rw o d.observed;
  infrastructure = rw i d.infrastructure;
}

-- The lists of one kind, after a row with a fresh id is pushed.
pub pushed :
    {A : Type 0} (key : A → String) (rows : List A) (r : A)
    → includes (key r) (map key rows) ≡ false
    → Distinct (map key rows)
    → Distinct (map key (rows ++ r ∷ []))
pushed key rows r h d = rw (keys-append key rows r) (Distinct-append (key r) (map key rows) h d)
