-- ===== src/Groups/Assignment.antt =====
-- Moving a target into a group or out of it: setTargetGroup of pages/projects/projectMembers.ts,
-- answered by the demo server.
use everyup.Common.{
  String, Bool, true, false, Option, some, none, List, [], ◌∷◌, ◌≡◌, ◌∙◌, refl, if◌then◌else◌, ◌==◌,
  or_else, find, update_first, Bool-cases, Option-cases, inl, inr, arith, ap, eq_iff,
}
use everyup.Api.Agents.{ConnectedAgent}
use everyup.Api.Hosts.{InfrastructureResource}
use everyup.Api.Monitors.{UptimeMonitor}
use everyup.Api.Observed.{ObservedService}
use everyup.Demo.Route.Segments.{IsSegment, is_empty}
use everyup.Demo.Route.Mutations.{Mutation, MemberKind, route}
use everyup.Demo.Route.Client.{
  Sent, ProjectsCall, projects_api, HostsCall, hosts_api, ObservedCall, observed_api,
}
use everyup.Demo.Route.Reaches.{route-projects_api, route-hosts_api, route-observed_api}
use everyup.Demo.State.{DemoState, Env, Body, empty_payload}
use everyup.Demo.Handlers.Infrastructure
use everyup.Demo.Handlers.Observed
use everyup.Demo.Handlers.Projects
use everyup.Demo.Server.{perform, mock_router}
use everyup.Groups.Members.{AssignableTarget}

-- A request, and what `request` puts into its body.
pub record Request : Type 0 where
  pub sent : Sent
  pub body : Body

abbrev bare : Sent → Request
bare s = record { sent = s; body = Body.absent }

-- `projectId ? … : …`: an empty text counts as none.
abbrev truthy : Option String → Option String
truthy none = none
truthy (some p) = if is_empty p then none else some p

-- `JSON.stringify` leaves an undefined projectId out.
unfoldable pub set_target_group : AssignableTarget → Option String → Request
set_target_group (AssignableTarget.agent r) p = elim (truthy p) [
  | none ↦ bare (projects_api (ProjectsCall.unassign_agent (or_else r.project_id "") r.id))
  | some q ↦ bare (projects_api (ProjectsCall.assign_agent q r.id))
]
set_target_group (AssignableTarget.monitor r) p = elim (truthy p) [
  | none ↦ bare (projects_api (ProjectsCall.unassign_monitor (or_else r.project_id "") r.id))
  | some q ↦ bare (projects_api (ProjectsCall.assign_monitor q r.id))
]
set_target_group (AssignableTarget.direct r) p = record {
  sent = observed_api (
      ObservedCall.update_service r.id
        (record { name = r.name; project_id = p; signals = r.signals }));
  body =
      Body.json
        (record empty_payload { name = some r.name; project_id = p; signals = some r.signals });
}
set_target_group (AssignableTarget.infra r) p = record {
  sent = hosts_api (HostsCall.update_resource r.id (record { name = r.name; project_id = p }));
  body = Body.json (record empty_payload { name = some r.name; project_id = p });
}

abbrev pub run_request : Env → Request → DemoState → DemoState
run_request env q s = (mock_router env q.sent.method q.sent.endpoint q.body s).0

-- The group that the server has for the row of a target; `none` where it has no such row.
abbrev group_field : {A : Type 0} → (A → Option String) → Option A → Option (Option String)
group_field get none = none
group_field get (some r) = some (get r)

abbrev pub group_of : AssignableTarget → DemoState → Option (Option String)
group_of (AssignableTarget.agent r) s =
    group_field (λ x. x.project_id) (find (Projects.is_agent r.id) s.agents)
group_of (AssignableTarget.monitor r) s =
    group_field (λ x. x.project_id) (find (Projects.is_monitor r.id) s.monitors)
group_of (AssignableTarget.direct r) s =
    group_field (λ x. x.project_id) (find (Observed.is_service r.id) s.observed)
group_of (AssignableTarget.infra r) s =
    group_field (λ x. x.project_id) (find (Infrastructure.is_resource r.id) s.infrastructure)

abbrev pub target_id : AssignableTarget → String
target_id (AssignableTarget.agent r) = r.id
target_id (AssignableTarget.monitor r) = r.id
target_id (AssignableTarget.direct r) = r.id
target_id (AssignableTarget.infra r) = r.id

-- The value a field has after it was set in the row, if the row is there.
abbrev pub set_to : {A : Type 0} → A → Option A → Option A
set_to v none = none
set_to v (some w) = some v

group_field-update_first :
    {A : Type 0} (p : A → Bool) (get : A → Option String) (f : A → A) (v : Option String)
    (rows : List A)
    → ((r : A) → p r ≡ true → p (f r) ≡ true)
    → ((r : A) → get (f r) ≡ v)
    → group_field get (find p (update_first p f rows)) ≡ set_to v (group_field get (find p rows))
group_field-update_first p get f v [] h k = refl
group_field-update_first p get f v (r ∷ rs) h k = elim (Bool-cases (p r)) [
  | inl e ↦ rw (e, h r e, k r)
  | inr e ↦ rw (e, e) (group_field-update_first p get f v rs h k)
]

or_undefined_segment :
    (p : String) → is_empty p ≡ false → Infrastructure.or_undefined (some p) ≡ some p
or_undefined_segment p h = elim (Bool-cases (p == "")) [
  | inl e ↦ cc (ap is_empty ((eq_iff p "").0 e), h)
  | inr e ↦ rw e
]

asks_agent :
    (r : ConnectedAgent) (p : String)
    → is_empty p ≡ false
    → set_target_group (AssignableTarget.agent r) (some p)
      ≡ bare (projects_api (ProjectsCall.assign_agent p r.id))
unfolding set_target_group
asks_agent r p h = ground arith

asks_monitor :
    (r : UptimeMonitor) (p : String)
    → is_empty p ≡ false
    → set_target_group (AssignableTarget.monitor r) (some p)
      ≡ bare (projects_api (ProjectsCall.assign_monitor p r.id))
unfolding set_target_group
asks_monitor r p h = ground arith

performs :
    (env : Env) (q : Request) (m : Mutation) (s : DemoState)
    → route q.sent.method q.sent.endpoint ≡ m
    → run_request env q s ≡ (perform env m q.body s).0
unfolding mock_router
performs env q m s e = ap (λ x. (perform env x q.body s).0) e

joins_agent :
    (env : Env) (id p : String) (s : DemoState)
    → group_field
        (λ x. x.project_id)
        (find
          (Projects.is_agent id)
          (perform env (Mutation.assign p MemberKind.agents id) Body.absent s).0.agents)
      ≡ set_to (some p) (group_field (λ x. x.project_id) (find (Projects.is_agent id) s.agents))
unfolding perform Projects.assign
joins_agent env id p s =
    group_field-update_first (Projects.is_agent id) (λ x. x.project_id)
      (Projects.place_agent (some p)) (some p) s.agents (λ x e. e) (λ x. refl)

joins_monitor :
    (env : Env) (id p : String) (s : DemoState)
    → group_field
        (λ x. x.project_id)
        (find
          (Projects.is_monitor id)
          (perform env (Mutation.assign p MemberKind.monitors id) Body.absent s).0.monitors)
      ≡ set_to (some p) (group_field (λ x. x.project_id) (find (Projects.is_monitor id) s.monitors))
unfolding perform Projects.assign
joins_monitor env id p s =
    group_field-update_first (Projects.is_monitor id) (λ x. x.project_id)
      (Projects.place_monitor (some p)) (some p) s.monitors (λ x e. e) (λ x. refl)

asks_direct :
    (r : ObservedService) (p : String)
    → IsSegment r.id
    → route
        (set_target_group (AssignableTarget.direct r) (some p)).sent.method
        (set_target_group (AssignableTarget.direct r) (some p)).sent.endpoint
      ≡ Mutation.update_observed r.id
unfolding set_target_group
asks_direct r p h =
    route-observed_api
      (ObservedCall.update_service r.id
        (record { name = r.name; project_id = some p; signals = r.signals }))
      h

asks_infra :
    (r : InfrastructureResource) (p : String)
    → IsSegment r.id
    → route
        (set_target_group (AssignableTarget.infra r) (some p)).sent.method
        (set_target_group (AssignableTarget.infra r) (some p)).sent.endpoint
      ≡ Mutation.update_infrastructure r.id
unfolding set_target_group
asks_infra r p h =
    route-hosts_api (HostsCall.update_resource r.id (record { name = r.name; project_id = some p }))
      h

joins_direct :
    (env : Env) (r : ObservedService) (p : String) (s : DemoState)
    → is_empty p ≡ false
    → group_field
        (λ x. x.project_id)
        (find
          (Observed.is_service r.id)
          (perform env
            (Mutation.update_observed r.id)
            (set_target_group (AssignableTarget.direct r) (some p)).body
            s).0.observed)
      ≡ set_to
          (some p)
          (group_field (λ x. x.project_id) (find (Observed.is_service r.id) s.observed))
unfolding perform set_target_group Observed.update
joins_direct env r p s k = elim (Option-cases (find (Observed.is_service r.id) s.observed)) [
  | inl e ↦ rw (e, Observed.update, e) refl
  | inr (y, e) ↦
      rw (e, Observed.update)
        (group_field-update_first (Observed.is_service r.id) (λ x. x.project_id) _ (some p)
            s.observed (λ x h. h) (λ x. or_undefined_segment p k)
          ∙ ap (λ o. set_to (some p) (group_field (λ x. x.project_id) o)) e)
]

joins_infra :
    (env : Env) (r : InfrastructureResource) (p : String) (s : DemoState)
    → is_empty p ≡ false
    → group_field
        (λ x. x.project_id)
        (find
          (Infrastructure.is_resource r.id)
          (perform env
            (Mutation.update_infrastructure r.id)
            (set_target_group (AssignableTarget.infra r) (some p)).body
            s).0.infrastructure)
      ≡ set_to (some p) (
          group_field (λ x. x.project_id) (find (Infrastructure.is_resource r.id) s.infrastructure))
unfolding perform set_target_group Infrastructure.update
joins_infra env r p s k =
    elim (Option-cases (find (Infrastructure.is_resource r.id) s.infrastructure)) [
      | inl e ↦ rw (e, Infrastructure.update, e) refl
      | inr (y, e) ↦
          rw (e, Infrastructure.update)
            (group_field-update_first (Infrastructure.is_resource r.id) (λ x. x.project_id) _
                (some p) s.infrastructure (λ x h. h) (λ x. or_undefined_segment p k)
              ∙ ap (λ o. set_to (some p) (group_field (λ x. x.project_id) o)) e)
    ]

-- Putting a target into a group, whatever its kind and whatever group it was in, leaves the row of
-- the target in that group, if the server has the row and the two ids are non-empty and free of
-- slashes.
pub set_target_group_joins :
    (env : Env) (t : AssignableTarget) (p : String) (s : DemoState)
    → IsSegment (target_id t)
    → IsSegment p
    → group_of t (run_request env (set_target_group t (some p)) s) ≡ set_to (some p) (group_of t s)
set_target_group_joins env (AssignableTarget.agent r) p s h k =
    rw
      (
        asks_agent r p k.0,
        performs env (bare (projects_api (ProjectsCall.assign_agent p r.id))) _ s
            (route-projects_api (ProjectsCall.assign_agent p r.id) (k, h)),
      )
      (joins_agent env r.id p s)
set_target_group_joins env (AssignableTarget.monitor r) p s h k =
    rw
      (
        asks_monitor r p k.0,
        performs env (bare (projects_api (ProjectsCall.assign_monitor p r.id))) _ s
            (route-projects_api (ProjectsCall.assign_monitor p r.id) (k, h)),
      )
      (joins_monitor env r.id p s)
set_target_group_joins env (AssignableTarget.direct r) p s h k =
    rw
      (performs env (set_target_group (AssignableTarget.direct r) (some p)) _ s (asks_direct r p h))
      (joins_direct env r p s k.0)
set_target_group_joins env (AssignableTarget.infra r) p s h k =
    rw (performs env (set_target_group (AssignableTarget.infra r) (some p)) _ s (asks_infra r p h))
      (joins_infra env r p s k.0)
