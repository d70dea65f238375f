-- ===== src/Demo/Laws/Identity/Members.antt =====
-- Distinct ids under /projects, /services and /agents.
use everyup.Common.{
  String, none, ◌≡◌, refl, keys-update_first, keys-map, Distinct-remove_first, find, Option-cases,
  inl, inr,
}
use everyup.Demo.Route.Mutations.{MemberKind}
use everyup.Demo.State.{DemoState, Env, Body, parse, parse_object, body_id}
use everyup.Demo.Handlers.Agents
use everyup.Demo.Handlers.Monitors
use everyup.Demo.Handlers.Projects
use everyup.Demo.Laws.Identity.{HasDistinctIds, IsFresh, keeps_id, same_ids, pushed}

module _ (env : Env) (s : DemoState) (d : HasDistinctIds s) where
  pub projects_create : (b : Body) → IsFresh env s → HasDistinctIds (Projects.create env b s).0
  unfolding Projects.create
  projects_create b f = elim (Option-cases (parse_object b)) [
    | inl e ↦ rw (e, Projects.create) d
    | inr (p, e) ↦
        rw (e, Projects.create)
          record {
            agents = d.agents;
            monitors = d.monitors;
            projects = pushed (λ r. r.id) s.projects _ f.projects d.projects;
            observed = d.observed;
            infrastructure = d.infrastructure;
          }
  ]

  pub projects_assign :
      (p : String) (k : MemberKind) (id : String) → HasDistinctIds (Projects.assign p k id s).0
  unfolding Projects.assign
  projects_assign p MemberKind.agents id =
      same_ids s _ (keys-update_first (λ r. r.id) _ _ s.agents (λ r. refl)) refl refl refl refl d
  projects_assign p MemberKind.monitors id =
      same_ids s _ refl (keys-update_first (λ r. r.id) _ _ s.monitors (λ r. refl)) refl refl refl d

  pub projects_unassign :
      (k : MemberKind) (id : String) → HasDistinctIds (Projects.unassign k id s).0
  unfolding Projects.unassign
  projects_unassign MemberKind.agents id =
      same_ids s _ (keys-update_first (λ r. r.id) _ _ s.agents (λ r. refl)) refl refl refl refl d
  projects_unassign MemberKind.monitors id =
      same_ids s _ refl (keys-update_first (λ r. r.id) _ _ s.monitors (λ r. refl)) refl refl refl d

  pub projects_update :
      (id : String) (b : Body) → body_id b ≡ none → HasDistinctIds (Projects.update env id b s).0
  unfolding Projects.update
  projects_update id b h = elim (Option-cases (find (Projects.is_project id) s.projects)) [
    | inl e ↦ rw (e, Projects.update) d
    | inr (r, e) ↦ elim (Option-cases (parse b)) [
      | inl e' ↦ rw (e, Projects.update, e') d
      | inr (p, e') ↦
          rw (e, Projects.update, e')
            (same_ids s _ refl refl
              (keys-update_first (λ r. r.id) _ _ s.projects (λ q. keeps_id b p q.id h e')) refl refl
              d)
    ]
  ]

  pub projects_remove : (id : String) → HasDistinctIds (Projects.remove id s).0
  unfolding Projects.remove
  projects_remove id = record {
    agents = rw (keys-map (λ r. r.id) (Projects.agent_leaves id) s.agents (λ r. refl)) d.agents;
    monitors =
        rw (keys-map (λ r. r.id) (Projects.monitor_leaves id) s.monitors (λ r. refl)) d.monitors;
    projects = Distinct-remove_first (λ r. r.id) _ s.projects d.projects;
    observed =
        rw (keys-map (λ r. r.id) (Projects.service_leaves id) s.observed (λ r. refl)) d.observed;
    infrastructure =
        rw (keys-map (λ r. r.id) (Projects.resource_leaves id) s.infrastructure (λ r. refl))
          d.infrastructure;
  }

  pub monitors_create : (b : Body) → IsFresh env s → HasDistinctIds (Monitors.create env b s).0
  unfolding Monitors.create
  monitors_create b f = elim (Option-cases (parse_object b)) [
    | inl e ↦ rw (e, Monitors.create) d
    | inr (p, e) ↦
        rw (e, Monitors.create)
          record {
            agents = d.agents;
            monitors = pushed (λ r. r.id) s.monitors _ f.monitors d.monitors;
            projects = d.projects;
            observed = d.observed;
            infrastructure = d.infrastructure;
          }
  ]

  pub monitors_update :
      (id : String) (b : Body) → body_id b ≡ none → HasDistinctIds (Monitors.update id b s).0
  unfolding Monitors.update
  monitors_update id b h = elim (Option-cases (find (Projects.is_monitor id) s.monitors)) [
    | inl e ↦ rw (e, Monitors.update) d
    | inr (r, e) ↦ elim (Option-cases (parse b)) [
      | inl e' ↦ rw (e, Monitors.update, e') d
      | inr (p, e') ↦
          rw (e, Monitors.update, e')
            (same_ids s _ refl
              (keys-update_first (λ r. r.id) _ _ s.monitors (λ q. keeps_id b p q.id h e')) refl refl
              refl d)
    ]
  ]

  pub monitors_remove : (id : String) → HasDistinctIds (Monitors.remove id s).0
  unfolding Monitors.remove
  monitors_remove id = record {
    agents = d.agents;
    monitors = Distinct-remove_first (λ r. r.id) _ s.monitors d.monitors;
    projects = d.projects;
    observed = d.observed;
    infrastructure = d.infrastructure;
  }

  pub agents_create : (b : Body) → IsFresh env s → HasDistinctIds (Agents.create env b s).0
  unfolding Agents.create
  agents_create b f = record {
    agents = pushed (λ r. r.id) s.agents _ f.agents d.agents;
    monitors = d.monitors;
    projects = d.projects;
    observed = d.observed;
    infrastructure = d.infrastructure;
  }

  pub agents_create_run : (id : String) (b : Body) → HasDistinctIds (Agents.create_run env id b s).0
  unfolding Agents.create_run
  agents_create_run id b = elim (Option-cases (parse_object b)) [
    | inl e ↦ rw (e, Agents.create_run) d
    | inr (p, e) ↦ elim (Option-cases p.keys) [
      | inl k ↦ rw (e, Agents.create_run, k) d
      | inr (ks, k) ↦ rw (e, Agents.create_run, k) (same_ids s _ refl refl refl refl refl d)
    ]
  ]

  pub agents_put_profile : (id : String) (b : Body) → HasDistinctIds (Agents.put_profile id b s).0
  unfolding Agents.put_profile
  agents_put_profile id b = elim (Option-cases (find (Projects.is_agent id) s.agents)) [
    | inl e ↦ rw (e, Agents.put_profile) d
    | inr (r, e) ↦ elim (Option-cases (parse b)) [
      | inl e' ↦ rw (e, Agents.put_profile, e') d
      | inr (p, e') ↦
          rw (e, Agents.put_profile, e')
            (same_ids s _ (keys-update_first (λ r. r.id) _ _ s.agents (λ r. refl)) refl refl refl
              refl d)
    ]
  ]

  pub agents_remove : (id : String) → HasDistinctIds (Agents.remove id s).0
  unfolding Agents.remove
  agents_remove id = record {
    agents = Distinct-remove_first (λ r. r.id) _ s.agents d.agents;
    monitors = d.monitors;
    projects = d.projects;
    observed = d.observed;
    infrastructure = d.infrastructure;
  }

  pub agents_remove_service :
      (id key : String) → HasDistinctIds (Agents.remove_service env id key s).0
  unfolding Agents.remove_service
  agents_remove_service id key = elim (Option-cases (env.decode key)) [
    | inl e ↦ rw (e, Agents.remove_service) d
    | inr (k, e) ↦ rw (e, Agents.remove_service) (same_ids s _ refl refl refl refl refl d)
  ]

  pub agents_echo_log_filter : (b : Body) → HasDistinctIds (Agents.echo_log_filter b s).0
  unfolding Agents.echo_log_filter
  agents_echo_log_filter b = elim (Option-cases (parse b)) [
    | inl e ↦ rw (e, Agents.echo_log_filter) d
    | inr (p, e) ↦ rw (e, Agents.echo_log_filter) d
  ]
