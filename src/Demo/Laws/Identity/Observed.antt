-- ===== src/Demo/Laws/Identity/Observed.antt =====
-- Distinct ids under /observed-services.
use everyup.Common.{
  String, Bool, refl, keys-update_first, Distinct-remove_first, find, update_first, Option-cases,
  Bool-cases, none, ◌≡◌, inl, inr,
}
use everyup.Api.Observed.{ObservedService}
use everyup.Demo.State.{DemoState, Env, Body, parse, parse_object, is_null, body_id}
use everyup.Demo.Handlers.Observed
use everyup.Demo.Laws.Identity.{HasDistinctIds, IsFresh, keeps_id, same_ids, pushed}

module _ (env : Env) (s : DemoState) (d : HasDistinctIds s) where
  pub observed_create : (b : Body) → IsFresh env s → HasDistinctIds (Observed.create env b s).0
  unfolding Observed.create
  observed_create b f = elim (Option-cases (parse_object b)) [
    | inl e ↦ rw (e, Observed.create) d
    | inr (p, e) ↦
        rw (e, Observed.create)
          record {
            agents = d.agents;
            monitors = d.monitors;
            projects = d.projects;
            observed = pushed (λ r. r.id) s.observed _ f.observed d.observed;
            infrastructure = d.infrastructure;
          }
  ]

  -- Any state whose observed services were assigned to, ids apart, and whose other rows stay.
  observed_edited :
      (p : ObservedService → Bool) (g : ObservedService → ObservedService)
      → ((r : ObservedService) → (g r).id ≡ r.id)
      → HasDistinctIds (record s { observed = update_first p g s.observed })
  observed_edited p g h =
      same_ids s _ refl refl refl (keys-update_first (λ r. r.id) p g s.observed h) refl d

  pub observed_rotate : (id : String) → HasDistinctIds (Observed.rotate env id s).0
  unfolding Observed.rotate
  observed_rotate id = elim (Option-cases (find (Observed.is_service id) s.observed)) [
    | inl e ↦ rw (e, Observed.rotate) d
    | inr (r, e) ↦ rw (e, Observed.rotate) (observed_edited _ _ (λ r. refl))
  ]

  pub observed_revoke : (id : String) → HasDistinctIds (Observed.revoke id s).0
  unfolding Observed.revoke
  observed_revoke id = observed_edited _ _ (λ r. refl)

  pub observed_update :
      (id : String) (b : Body) → body_id b ≡ none → HasDistinctIds (Observed.update env id b s).0
  unfolding Observed.update
  observed_update id b h = elim (Option-cases (parse b)) [
    | inl e ↦ rw (e, Observed.update) d
    | inr (p, e) ↦ elim (Option-cases (find (Observed.is_service id) s.observed)) [
      | inl e' ↦ rw (e, Observed.update, e') d
      | inr (r, e') ↦ elim (Bool-cases (is_null b)) [
        | inl n ↦ rw (e, Observed.update, e', n) d
        | inr n ↦ rw (e, Observed.update, e', n) (observed_edited _ _ (λ q. keeps_id b p q.id h e))
      ]
    ]
  ]

  pub observed_set_log_filter :
      (id : String) (b : Body) → HasDistinctIds (Observed.set_log_filter id b s).0
  unfolding Observed.set_log_filter
  observed_set_log_filter id b = elim (Option-cases (parse_object b)) [
    | inl e ↦ rw (e, Observed.set_log_filter) d
    | inr (p, e) ↦ rw (e, Observed.set_log_filter) (same_ids s _ refl refl refl refl refl d)
  ]

  pub observed_set_api_exclusions :
      (id : String) (b : Body) → HasDistinctIds (Observed.set_api_exclusions id b s).0
  unfolding Observed.set_api_exclusions
  observed_set_api_exclusions id b = elim (Option-cases (parse_object b)) [
    | inl e ↦ rw (e, Observed.set_api_exclusions) d
    | inr (p, e) ↦
        rw (e, Observed.set_api_exclusions)
          (same_ids s _ refl refl refl (keys-update_first (λ r. r.id) _ _ s.observed (λ r. refl))
            refl d)
  ]

  pub observed_remove : (id : String) → HasDistinctIds (Observed.remove id s).0
  unfolding Observed.remove
  observed_remove id = record {
    agents = d.agents;
    monitors = d.monitors;
    projects = d.projects;
    observed = Distinct-remove_first (λ r. r.id) _ s.observed d.observed;
    infrastructure = d.infrastructure;
  }
