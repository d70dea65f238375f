-- ===== src/Demo/Laws/Groups.antt =====
-- Which rows belong to which group, across the requests under /projects: services/mockRouter.ts.
use everyup.Common.{
  String, Bool, true, false, Option, some, none, List, [], ◌∷◌, ◌≡◌, ◌≢◌, refl, map, not, ◌==◌,
  eq_iff, All, keep, find, update_first, remove_first, Bool-cases, inl, inr, arith, ap, sym, ◌∙◌,
}
use everyup.Demo.Route.Segments.{IsSegment}
use everyup.Demo.Route.Client.{ProjectsCall, projects_api}
use everyup.Demo.Route.Reaches.{route-projects_api}
use everyup.Demo.State.{DemoState, Env, Body, Reply}
use everyup.Demo.Handlers.Projects
use everyup.Demo.Server.{perform, mock_router}

-- The request that the client sends, answered by the demo server.
abbrev pub answer : Env → ProjectsCall → Body → DemoState → DemoState × Reply
answer env c b s = mock_router env (projects_api c).method (projects_api c).endpoint b s

abbrev pub in_group : String → Option String → Bool
in_group p none = false
in_group p (some q) = q == p

leave-in_group :
    (id p : String) (q : Option String) → p ≢ id → in_group p (Projects.leave id q) ≡ in_group p q
leave-in_group id p none h = refl
leave-in_group id p (some q) h = ground (arith, eq_iff q id, eq_iff q p)

leave_same :
    (id p : String) (q : Option String) → p ≢ id → in_group p q ≡ true → Projects.leave id q ≡ q
leave_same id p none h k = refl
leave_same id p (some q) h k = ground (arith, eq_iff q id, eq_iff q p)

leave-ne : (id : String) (q : Option String) → Projects.leave id q ≢ some id
leave-ne id none e = cc
leave-ne id (some q) e = ground (arith, eq_iff q id)

-- One list of rows whose group field is read by `get` and written by `put`.
module _ {A : Type 0} (get : A → Option String) (go : String → A → A) where
  cleared :
      (id : String) (rows : List A)
      → ((r : A) → get (go id r) ≡ Projects.leave id (get r))
      → All (λ r. get r ≢ some id) (map (go id) rows)
  cleared id [] h = tt
  cleared id (r ∷ rs) h = (λ e. leave-ne id (get r) (sym (h r) ∙ e), cleared id rs h)

  members_kept :
      (id p : String) (rows : List A)
      → ((r : A) → get (go id r) ≡ Projects.leave id (get r))
      → ((r : A) → Projects.leave id (get r) ≡ get r → go id r ≡ r)
      → p ≢ id
      → keep (λ r. in_group p (get r)) (map (go id) rows) ≡ keep (λ r. in_group p (get r)) rows
  members_kept id p [] h k n = refl
  members_kept id p (r ∷ rs) h k n = elim (Bool-cases (in_group p (get r))) [
    | inl e ↦ rw (k r (leave_same id p (get r) n e), e, members_kept id p rs h k n)
    | inr e ↦ rw (h r, leave-in_group id p (get r) n, e) (members_kept id p rs h k n)
  ]

-- No row of any kind is in the group `id`.
pub record IsCleared (id : String) (s : DemoState) : Type 0 where
  pub agents : All (λ r. r.project_id ≢ some id) s.agents
  pub monitors : All (λ r. r.project_id ≢ some id) s.monitors
  pub observed : All (λ r. r.project_id ≢ some id) s.observed
  pub infrastructure : All (λ r. r.project_id ≢ some id) s.infrastructure

-- The rows of the group `p` are the same in both states, in the same order.
pub record HasSameMembers (p : String) (s t : DemoState) : Type 0 where
  pub agents :
      keep (λ r. in_group p r.project_id) s.agents ≡ keep (λ r. in_group p r.project_id) t.agents
  pub monitors :
      keep (λ r. in_group p r.project_id) s.monitors
      ≡ keep (λ r. in_group p r.project_id) t.monitors
  pub observed :
      keep (λ r. in_group p r.project_id) s.observed
      ≡ keep (λ r. in_group p r.project_id) t.observed
  pub infrastructure :
      keep (λ r. in_group p r.project_id) s.infrastructure
      ≡ keep (λ r. in_group p r.project_id) t.infrastructure

abbrev rest {ℓ} : {A : Type ℓ} → List A → List A
rest [] = []
rest (x ∷ xs) = xs

-- Of the rows with the id, the first is gone; the groups with other ids are as they were, and so are
-- the fixtures that no group has.
pub record IsRemoved (id : String) (s t : DemoState) : Type 0 where
  pub removed :
      keep (Projects.is_project id) t.projects ≡ rest (keep (Projects.is_project id) s.projects)
  pub others :
      keep (λ r. not (Projects.is_project id r)) t.projects
      ≡ keep (λ r. not (Projects.is_project id r)) s.projects
  pub services : t.services ≡ s.services
  pub log_filters : t.log_filters ≡ s.log_filters
  pub api_exclusions : t.api_exclusions ≡ s.api_exclusions
  pub pending_profiles : t.pending_profiles ≡ s.pending_profiles
  pub runs : t.runs ≡ s.runs

keep-remove_first :
    {A : Type 0} (p : A → Bool) (rows : List A) → keep p (remove_first p rows) ≡ rest (keep p rows)
keep-remove_first p [] = refl
keep-remove_first p (r ∷ rs) = elim (Bool-cases (p r)) [
  | inl e ↦ rw e refl
  | inr e ↦ rw (e, e) (keep-remove_first p rs)
]

others-remove_first :
    {A : Type 0} (p : A → Bool) (rows : List A)
    → keep (λ r. not (p r)) (remove_first p rows) ≡ keep (λ r. not (p r)) rows
others-remove_first p [] = refl
others-remove_first p (r ∷ rs) = elim (Bool-cases (p r)) [
  | inl e ↦ rw e refl
  | inr e ↦ rw (e, e) (ap (λ xs. r ∷ xs) (others-remove_first p rs))
]

remove-IsRemoved : (id : String) (s : DemoState) → IsRemoved id s (Projects.remove id s).0
unfolding Projects.remove
remove-IsRemoved id s = record {
  removed = keep-remove_first (Projects.is_project id) s.projects;
  others = others-remove_first (Projects.is_project id) s.projects;
  services = refl;
  log_filters = refl;
  api_exclusions = refl;
  pending_profiles = refl;
  runs = refl;
}

remove-IsCleared : (id : String) (s : DemoState) → IsCleared id (Projects.remove id s).0
unfolding Projects.remove
remove-IsCleared id s = record {
  agents = cleared (λ r. r.project_id) Projects.agent_leaves id s.agents (λ r. refl);
  monitors = cleared (λ r. r.project_id) Projects.monitor_leaves id s.monitors (λ r. refl);
  observed = cleared (λ r. r.project_id) Projects.service_leaves id s.observed (λ r. refl);
  infrastructure =
      cleared (λ r. r.project_id) Projects.resource_leaves id s.infrastructure (λ r. refl);
}

remove-HasSameMembers :
    (id p : String) (s : DemoState) → p ≢ id → HasSameMembers p (Projects.remove id s).0 s
unfolding Projects.remove
remove-HasSameMembers id p s n = record {
  agents =
      members_kept (λ r. r.project_id) Projects.agent_leaves id p s.agents (λ r. refl)
        (λ r e. ap (λ q. record r { project_id = q }) e) n;
  monitors =
      members_kept (λ r. r.project_id) Projects.monitor_leaves id p s.monitors (λ r. refl)
        (λ r e. ap (λ q. record r { project_id = q }) e) n;
  observed =
      members_kept (λ r. r.project_id) Projects.service_leaves id p s.observed (λ r. refl)
        (λ r e. ap (λ q. record r { project_id = q }) e) n;
  infrastructure =
      members_kept (λ r. r.project_id) Projects.resource_leaves id p s.infrastructure (λ r. refl)
        (λ r e. ap (λ q. record r { project_id = q }) e) n;
}

pub delete_project_lem :
    (env : Env) (id : String) (b : Body) (s : DemoState)
    → IsSegment id
    → IsCleared id (answer env (ProjectsCall.delete_project id) b s).0
      × (IsRemoved id s (answer env (ProjectsCall.delete_project id) b s).0
          × ((p : String)
              → p ≢ id
              → HasSameMembers p (answer env (ProjectsCall.delete_project id) b s).0 s))
unfolding mock_router perform
delete_project_lem env id b s h =
    rw (route-projects_api (ProjectsCall.delete_project id) h, perform)
      (remove-IsCleared id s, (remove-IsRemoved id s, λ p n. remove-HasSameMembers id p s n))

-- Where the row with this id is, after an assignment: the first row with the id is in the group
-- asked for, every other agent is as it was, and monitors, services and resources are untouched.
find-update_first :
    {A : Type 0} (p : A → Bool) (f : A → A) (rows : List A)
    → ((r : A) → p r ≡ true → p (f r) ≡ true)
    → find p (update_first p f rows) ≡ elim (find p rows) [ none ↦ none | some r ↦ some (f r) ]
find-update_first p f [] h = refl
find-update_first p f (r ∷ rs) h = elim (Bool-cases (p r)) [
  | inl e ↦ rw (e, h r e)
  | inr e ↦ rw (e, e) (find-update_first p f rs h)
]

keep-update_first :
    {A : Type 0} (p q : A → Bool) (f : A → A) (rows : List A)
    → ((r : A) → p r ≡ true → q r ≡ false)
    → ((r : A) → p r ≡ true → q (f r) ≡ false)
    → keep q (update_first p f rows) ≡ keep q rows
keep-update_first p q f [] h k = refl
keep-update_first p q f (r ∷ rs) h k = elim (Bool-cases (p r)) [
  | inl e ↦ rw (e, h r e, k r e)
  | inr e ↦ rw e (ground (arith, keep-update_first p q f rs h k))
]

update_first_twice :
    {A : Type 0} (p : A → Bool) (f g : A → A) (rows : List A)
    → ((r : A) → p r ≡ true → p (f r) ≡ true)
    → ((r : A) → g (f r) ≡ g r)
    → update_first p g (update_first p f rows) ≡ update_first p g rows
update_first_twice p f g [] h k = refl
update_first_twice p f g (r ∷ rs) h k = elim (Bool-cases (p r)) [
  | inl e ↦ rw (e, h r e, k r)
  | inr e ↦ rw (e, e, update_first_twice p f g rs h k)
]

-- Assignment overwrites: after an agent is assigned to a second group, the fixtures are as if the
-- first assignment had not been made, and so it is for a monitor; the ids are non-empty and free of
-- slashes.
pub assign_overwrites :
    (env : Env) (p q m : String) (b : Body) (s : DemoState)
    → IsSegment p
    → IsSegment q
    → IsSegment m
    → ((answer env
          (ProjectsCall.assign_agent q m)
          b
          (answer env (ProjectsCall.assign_agent p m) b s).0)
        ≡ answer env (ProjectsCall.assign_agent q m) b s)
      × ((answer env
            (ProjectsCall.assign_monitor q m)
            b
            (answer env (ProjectsCall.assign_monitor p m) b s).0)
          ≡ answer env (ProjectsCall.assign_monitor q m) b s)
unfolding mock_router perform Projects.assign
assign_overwrites env p q m b s hp hq hm = (
  rw
      (
        route-projects_api (ProjectsCall.assign_agent q m) (hq, hm),
        route-projects_api (ProjectsCall.assign_agent p m) (hp, hm),
        perform,
      )
      (ap (λ rows. (record s { agents = rows }, Reply.undefined))
        (update_first_twice (Projects.is_agent m) (Projects.place_agent (some p))
          (Projects.place_agent (some q)) s.agents (λ r e. e) (λ r. refl))),
  rw
      (
        route-projects_api (ProjectsCall.assign_monitor q m) (hq, hm),
        route-projects_api (ProjectsCall.assign_monitor p m) (hp, hm),
        perform,
      )
      (ap (λ rows. (record s { monitors = rows }, Reply.undefined))
        (update_first_twice (Projects.is_monitor m) (Projects.place_monitor (some p))
          (Projects.place_monitor (some q)) s.monitors (λ r e. e) (λ r. refl))),
)

-- What an assignment of an agent does: the agent found by its id is in the group asked for, every
-- row with another id is as it was, and every other fixture is untouched.
pub record IsMoved (p m : String) (s t : DemoState) : Type 0 where
  pub moved : find (Projects.is_agent m) t.agents ≡ elim (find (Projects.is_agent m) s.agents) [
    | none ↦ none
    | some r ↦ some (record r { project_id = some p })
  ]
  pub others :
      keep (λ r. not (Projects.is_agent m r)) t.agents
      ≡ keep (λ r. not (Projects.is_agent m r)) s.agents
  pub monitors : t.monitors ≡ s.monitors
  pub observed : t.observed ≡ s.observed
  pub infrastructure : t.infrastructure ≡ s.infrastructure
  pub projects : t.projects ≡ s.projects
  pub services : t.services ≡ s.services
  pub log_filters : t.log_filters ≡ s.log_filters
  pub api_exclusions : t.api_exclusions ≡ s.api_exclusions
  pub pending_profiles : t.pending_profiles ≡ s.pending_profiles
  pub runs : t.runs ≡ s.runs

-- The client's request to assign an agent, with ids that are non-empty and free of slashes, puts the
-- first agent with the id into the group and changes nothing else of it, no agent with another id and
-- no other fixture.
pub assign_agent-IsMoved :
    (env : Env) (p m : String) (b : Body) (s : DemoState)
    → IsSegment p
    → IsSegment m
    → IsMoved p m s (answer env (ProjectsCall.assign_agent p m) b s).0
unfolding mock_router perform Projects.assign
assign_agent-IsMoved env p m b s hp hm =
    rw (route-projects_api (ProjectsCall.assign_agent p m) (hp, hm), perform)
      (record {
        moved =
            find-update_first (Projects.is_agent m) (Projects.place_agent (some p)) s.agents
              (λ r e. e);
        others =
            keep-update_first (Projects.is_agent m) (λ r. not (Projects.is_agent m r))
              (Projects.place_agent (some p)) s.agents (λ r e. ap not e) (λ r e. ap not e);
        monitors = refl;
        observed = refl;
        infrastructure = refl;
        projects = refl;
        services = refl;
        log_filters = refl;
        api_exclusions = refl;
        pending_profiles = refl;
        runs = refl;
      })
