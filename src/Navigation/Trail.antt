-- ===== src/Navigation/Trail.antt =====
-- The group from which a target was opened: hooks/useGroupTrail.ts.
use everyup.Common.{
  String, Bool, true, false, Option, some, none, List, [], ◌∷◌, ◌≡◌, refl, not, ◌&&◌, ◌||◌, ◌==◌,
  ◌+++◌, if◌then◌else◌, is_some, after_prefix, Bool-cases, inl, inr,
}

pub record GroupTrail : Type 0 where
  pub id : String
  pub name : String
  pub path : String

-- The storage of the session, which holds one trail at most; `blocked` is one that throws.
pub data SessionStorage : Type 0 where
  blocked : SessionStorage
  holding : Option GroupTrail → SessionStorage

unfoldable pub read : SessionStorage → Option GroupTrail
read SessionStorage.blocked = none
read (SessionStorage.holding t) = t

unfoldable pub open_from_group : GroupTrail → SessionStorage → SessionStorage
open_from_group t SessionStorage.blocked = SessionStorage.blocked
open_from_group t (SessionStorage.holding u) = SessionStorage.holding (some t)

abbrev remove_item : SessionStorage → SessionStorage
remove_item SessionStorage.blocked = SessionStorage.blocked
remove_item (SessionStorage.holding u) = SessionStorage.holding none

unfoldable pub within : String → String → Bool
within pathname path = pathname == path || is_some (after_prefix (path +++ "/") pathname)

unfoldable pub active_trail : String → SessionStorage → Option GroupTrail
unfolding read
active_trail pathname storage = elim (read storage) [
  | none ↦ none
  | some t ↦ if within pathname t.path then some t else none
]

abbrev is_group_page : String → GroupTrail → Bool
is_group_page pathname t = pathname == ("/projects/" +++ t.id)

unfoldable pub is_stale : String → SessionStorage → Bool
unfolding read
is_stale pathname storage = elim (read storage) [
  | none ↦ false
  | some t ↦ not (within pathname t.path) && not (is_group_page pathname t)
]

-- The effect of the hook on a page.
unfoldable pub visit : String → SessionStorage → SessionStorage
visit pathname storage = if is_stale pathname storage then remove_item storage else storage

unfoldable pub visits : List String → SessionStorage → SessionStorage
unfolding visit
visits [] storage = storage
visits (p ∷ ps) storage = visits ps (visit p storage)

abbrev pub stays : GroupTrail → List String → Bool
stays t [] = true
stays t (p ∷ ps) = (within p t.path || is_group_page p t) && stays t ps

visits_nothing :
    (ps : List String) → visits ps (SessionStorage.holding none) ≡ SessionStorage.holding none
unfolding visits visit is_stale read
visits_nothing [] = refl
visits_nothing (p ∷ ps) = visits_nothing ps

visits_held :
    (t : GroupTrail) (ps : List String)
    → visits ps (SessionStorage.holding (some t))
      ≡ SessionStorage.holding (if stays t ps then some t else none)
unfolding visits visit is_stale read
visits_held t [] = refl
visits_held t (p ∷ ps) = elim (Bool-cases (within p t.path)) [
  | inl e ↦ rw (e, visits_held t ps) refl
  | inr e ↦ elim (Bool-cases (is_group_page p t)) [
    | inl d ↦ rw (e, d, visits_held t ps) refl
    | inr d ↦ rw (e, d, visits_nothing ps) refl
  ]
]

visits_blocked : (ps : List String) → visits ps SessionStorage.blocked ≡ SessionStorage.blocked
unfolding visits visit is_stale read
visits_blocked [] = refl
visits_blocked (p ∷ ps) = visits_blocked ps

shown_trail :
    (t : GroupTrail) (b : Bool) (pathname : String)
    → active_trail pathname (SessionStorage.holding (if b then some t else none))
      ≡ (if b && within pathname t.path then some t else none)
unfolding active_trail read
shown_trail t true pathname = refl
shown_trail t false pathname = refl

-- The trail that a page shows after any visits: `t` if it was opened where the storage can be used,
-- no page before was outside of the target and of the page of the group, and this one is within the
-- target; else none.
pub active_trail-visits :
    (t : GroupTrail) (held : Option GroupTrail) (ps : List String) (pathname : String)
    → (active_trail pathname (visits ps (open_from_group t (SessionStorage.holding held)))
        ≡ (if stays t ps && within pathname t.path then some t else none))
      × (active_trail pathname (visits ps (open_from_group t SessionStorage.blocked)) ≡ none)
unfolding active_trail open_from_group read
active_trail-visits t held ps pathname =
    (rw (visits_held t ps) (shown_trail t (stays t ps) pathname), rw (visits_blocked ps) refl)
