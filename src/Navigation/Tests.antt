-- ===== src/Navigation/Tests.antt =====
-- Runs of the trail of a group: hooks/useGroupTrail.ts.
use everyup.Common.{true, some, none, [], ◌∷◌, ◌≡◌, refl, ◌&&◌, if◌then◌else◌}
use everyup.Navigation.Trail.{
  GroupTrail, SessionStorage, active_trail, open_from_group, visits, stays, within,
  active_trail-visits,
}

abbrev staging : GroupTrail
staging = record { id = "p1"; name = "Staging"; path = "/uptime/m1" }

active_trail-visits_example :
    (active_trail "/uptime/m1/checks"
        (visits ("/projects/p1" ∷ []) (open_from_group staging (SessionStorage.holding none)))
      ≡ (if stays staging ("/projects/p1" ∷ []) && within "/uptime/m1/checks" staging.path
          then some staging
          else none))
    × (active_trail "/uptime/m1/checks"
          (visits ("/projects/p1" ∷ []) (open_from_group staging SessionStorage.blocked))
        ≡ none)
active_trail-visits_example =
    active_trail-visits staging none ("/projects/p1" ∷ []) "/uptime/m1/checks"

within_path : within "/uptime/m1/checks" "/uptime/m1" ≡ true
unfolding within
within_path = refl
