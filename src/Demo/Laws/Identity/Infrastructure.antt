-- ===== src/Demo/Laws/Identity/Infrastructure.antt =====
-- Distinct ids under /infrastructure-resources.
use everyup.Common.{
  String, Bool, refl, keys-update_first, Distinct-remove_first, find, update_first, Option-cases,
  Bool-cases, none, ◌≡◌, inl, inr,
}
use everyup.Api.Hosts.{InfrastructureResource}
use everyup.Demo.State.{DemoState, Env, Body, parse, parse_object, is_null, body_id}
use everyup.Demo.Laws.Identity.{HasDistinctIds, IsFresh, keeps_id, same_ids, pushed}
use everyup.Demo.Handlers.Infrastructure as Handler

module _ (env : Env) (s : DemoState) (d : HasDistinctIds s) where
  pub infrastructure_create : (b : Body) → IsFresh env s → HasDistinctIds (Handler.create env b s).0
  unfolding Handler.create
  infrastructure_create b f = elim (Option-cases (parse_object b)) [
    | inl e ↦ rw (e, Handler.create) d
    | inr (p, e) ↦
        rw (e, Handler.create)
          record {
            agents = d.agents;
            monitors = d.monitors;
            projects = d.projects;
            observed = d.observed;
            infrastructure =
                pushed (λ r. r.id) s.infrastructure _ f.infrastructure d.infrastructure;
          }
  ]

  -- A state whose infrastructure rows were assigned to, ids apart.
  infrastructure_edited :
      (p : InfrastructureResource → Bool) (g : InfrastructureResource → InfrastructureResource)
      → ((r : InfrastructureResource) → (g r).id ≡ r.id)
      → HasDistinctIds (record s { infrastructure = update_first p g s.infrastructure })
  infrastructure_edited p g h =
      same_ids s _ refl refl refl refl (keys-update_first (λ r. r.id) p g s.infrastructure h) d

  pub infrastructure_rotate : (id : String) → HasDistinctIds (Handler.rotate env id s).0
  unfolding Handler.rotate
  infrastructure_rotate id = elim (Option-cases (find (Handler.is_resource id) s.infrastructure)) [
    | inl e ↦ rw (e, Handler.rotate) d
    | inr (r, e) ↦ rw (e, Handler.rotate) (infrastructure_edited _ _ (λ r. refl))
  ]

  pub infrastructure_update :
      (id : String) (b : Body) → body_id b ≡ none → HasDistinctIds (Handler.update env id b s).0
  unfolding Handler.update
  infrastructure_update id b h = elim (Option-cases (parse b)) [
    | inl e ↦ rw (e, Handler.update) d
    | inr (p, e) ↦ elim (Option-cases (find (Handler.is_resource id) s.infrastructure)) [
      | inl e' ↦ rw (e, Handler.update, e') d
      | inr (r, e') ↦ elim (Bool-cases (is_null b)) [
        | inl n ↦ rw (e, Handler.update, e', n) d
        | inr n ↦
            rw (e, Handler.update, e', n) (infrastructure_edited _ _ (λ q. keeps_id b p q.id h e))
      ]
    ]
  ]

  pub infrastructure_revoke : (id : String) → HasDistinctIds (Handler.revoke id s).0
  unfolding Handler.revoke
  infrastructure_revoke id = infrastructure_edited _ _ (λ r. refl)

  pub infrastructure_remove : (id : String) → HasDistinctIds (Handler.remove id s).0
  unfolding Handler.remove
  infrastructure_remove id = record {
    agents = d.agents;
    monitors = d.monitors;
    projects = d.projects;
    observed = d.observed;
    infrastructure = Distinct-remove_first (λ r. r.id) _ s.infrastructure d.infrastructure;
  }
