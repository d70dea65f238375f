-- ===== src/Setup/Capabilities.antt =====
-- The capabilities chosen in the dialog, features/services/components/AddServiceModal.tsx, and the
-- profile that the demo server, services/mockRouter.ts, makes of them.
use everyup.Common.{
  Bool, true, false, some, List, [], ◌∷◌, ◌≡◌, refl, sym, ap, ◌∙◌, not, ◌&&◌, ◌||◌, if◌then◌else◌,
  keep, arith, Bool-cases, inl, inr,
}
use everyup.Api.Agents.{AgentProfileKind, AgentCollectionCapability}
use everyup.Demo.Profiles.{all_capabilities, has, same_capability, selected, normalize_profile}
use everyup.Demo.Laws.Profiles.{has_kept}
use everyup.Setup.AddService.{
  added, deleted, needs_uptime, toggle_capability, uptime_required, is_disabled,
}

-- The capabilities that a user can reach by the switches that are not disabled.
pub data Chosen : List AgentCollectionCapability → Type 0 where
  first : Chosen (AgentCollectionCapability.uptime ∷ [])
  switched :
      (given : List AgentCollectionCapability) (c : AgentCollectionCapability) (enabled : Bool)
      → Chosen given
      → is_disabled given c ≡ false
      → Chosen (toggle_capability c enabled given)

abbrev IsClosed : List AgentCollectionCapability → Type 0
IsClosed xs = (not (uptime_required xs) || has xs AgentCollectionCapability.uptime) ≡ true

same_eq : (c x : AgentCollectionCapability) → same_capability c x ≡ true → c ≡ x
same_eq c x h = ground arith

same_comm : (c d : AgentCollectionCapability) → same_capability c d ≡ same_capability d c
same_comm c d = ground arith

without : (s t o : Bool) → s ≡ t → (s || o) && not t ≡ o && not t
without s t o h = ground arith

-- A capability that is not deleted is not the one that is.
apart :
    (c d x : AgentCollectionCapability)
    → same_capability c x ≡ false
    → (same_capability d x && same_capability c d) ≡ false
apart c d x h = elim (Bool-cases (same_capability d x)) [
  | inl e ↦ rw e (ap (same_capability c) (same_eq d x e) ∙ h)
  | inr e ↦ rw e refl
]

kept_beside : (s t o : Bool) → (s && t) ≡ false → (s || (o && not t)) ≡ ((s || o) && not t)
kept_beside s t o h = ground arith

has-deleted :
    (c d : AgentCollectionCapability) (xs : List AgentCollectionCapability)
    → has (deleted c xs) d ≡ (has xs d && not (same_capability c d))
has-deleted c d [] = refl
has-deleted c d (x ∷ xs) = elim (Bool-cases (same_capability c x)) [
  | inl e ↦ rw e (
      has-deleted c d xs
      ∙ sym (
          without (same_capability d x) (same_capability c d) (has xs d)
            (ap (same_capability d) (sym (same_eq c x e)) ∙ same_comm d c)))
  | inr e ↦ rw e (
      ap (λ o. same_capability d x || o) (has-deleted c d xs)
      ∙ kept_beside (same_capability d x) (same_capability c d) (has xs d) (apart c d x e))
]

keep_same :
    (p q : AgentCollectionCapability → Bool) (xs : List AgentCollectionCapability)
    → ((c : AgentCollectionCapability) → p c ≡ q c)
    → keep p xs ≡ keep q xs
keep_same p q [] h = refl
keep_same p q (x ∷ xs) h = ground (arith, h x, keep_same p q xs h)

-- The set of capabilities after a switch, before it is put in the order of the options.
abbrev next_set :
    AgentCollectionCapability
    → Bool
    → List AgentCollectionCapability
    → List AgentCollectionCapability
next_set c enabled given =
    let next = if enabled then added c given else deleted c given in
    if needs_uptime c then added AgentCollectionCapability.uptime next else next

next_set-IsClosed :
    (c : AgentCollectionCapability) (enabled : Bool) (given : List AgentCollectionCapability)
    → is_disabled given c ≡ false
    → IsClosed given
    → IsClosed (next_set c enabled given)
next_set-IsClosed AgentCollectionCapability.uptime true given d h = ground arith
next_set-IsClosed AgentCollectionCapability.uptime false given d h = ground (
  arith,
  has-deleted AgentCollectionCapability.uptime AgentCollectionCapability.uptime given,
  has-deleted AgentCollectionCapability.uptime AgentCollectionCapability.logs given,
  has-deleted AgentCollectionCapability.uptime AgentCollectionCapability.api given,
)
next_set-IsClosed AgentCollectionCapability.logs true given d h = ground arith
next_set-IsClosed AgentCollectionCapability.logs false given d h = ground arith
next_set-IsClosed AgentCollectionCapability.infrastructure true given d h = ground arith
next_set-IsClosed AgentCollectionCapability.infrastructure false given d h = ground (
  arith,
  has-deleted AgentCollectionCapability.infrastructure AgentCollectionCapability.uptime given,
  has-deleted AgentCollectionCapability.infrastructure AgentCollectionCapability.logs given,
  has-deleted AgentCollectionCapability.infrastructure AgentCollectionCapability.api given,
)
next_set-IsClosed AgentCollectionCapability.api true given d h = ground arith
next_set-IsClosed AgentCollectionCapability.api false given d h = ground arith
next_set-IsClosed AgentCollectionCapability.metrics true given d h = ground arith
next_set-IsClosed AgentCollectionCapability.metrics false given d h = ground (
  arith,
  has-deleted AgentCollectionCapability.metrics AgentCollectionCapability.uptime given,
  has-deleted AgentCollectionCapability.metrics AgentCollectionCapability.logs given,
  has-deleted AgentCollectionCapability.metrics AgentCollectionCapability.api given,
)

selected_same :
    (ys : List AgentCollectionCapability) (c : AgentCollectionCapability)
    → IsClosed ys
    → has (selected ys) c ≡ has ys c
unfolding selected
selected_same ys AgentCollectionCapability.uptime h = ground arith
selected_same ys AgentCollectionCapability.logs h = ground arith
selected_same ys AgentCollectionCapability.infrastructure h = ground arith
selected_same ys AgentCollectionCapability.api h = ground arith
selected_same ys AgentCollectionCapability.metrics h = ground arith

kept-IsClosed :
    (xs : List AgentCollectionCapability) → IsClosed xs → IsClosed (keep (has xs) all_capabilities)
kept-IsClosed xs h =
    rw
      (
        has_kept xs AgentCollectionCapability.logs,
        has_kept xs AgentCollectionCapability.api,
        has_kept xs AgentCollectionCapability.uptime,
      )
      h

-- The chosen capabilities are those of a set that is closed, in the order of the options.
Chosen-set :
    (given : List AgentCollectionCapability)
    → Chosen given
    → (xs : List AgentCollectionCapability) × (IsClosed xs
        × (given ≡ keep (has xs) all_capabilities))
unfolding toggle_capability
Chosen-set _ first = (AgentCollectionCapability.uptime ∷ [], (refl, refl))
Chosen-set _ (switched given c enabled g d) =
    let (xs, (h, e)) = Chosen-set given g in
    (
      next_set c enabled given,
      (next_set-IsClosed c enabled given d (rw e (kept-IsClosed xs h)), refl),
    )

-- Whatever capabilities a user chooses by the switches that are not disabled, the demo server makes
-- of the custom profile that is sent the very profile that was chosen, without adding or dropping a
-- capability or changing their order.
pub normalize_profile-Chosen :
    (given : List AgentCollectionCapability)
    → Chosen given
    → normalize_profile
        (some (record { kind = some AgentProfileKind.custom; capabilities = some given }))
      ≡ record { kind = AgentProfileKind.custom; capabilities = given }
unfolding normalize_profile
normalize_profile-Chosen given g =
    let (xs, (h, e)) = Chosen-set given g in
    ap (λ cs. record { kind = AgentProfileKind.custom; capabilities = cs })
      (keep_same (has (selected given)) (has xs) all_capabilities (λ c.
          selected_same given c (rw e (kept-IsClosed xs h))
          ∙ (ap (λ ys. has ys c) e ∙ has_kept xs c))
        ∙ sym e)
