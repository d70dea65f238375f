-- ===== src/Demo/Route/Mutations.antt =====
-- Which handler of mockRouter.ts answers a request that is no GET. The tests of one method stand in
-- the order of the source.
use everyup.Common.{String, Option, some, none, List, [], ◌∷◌}
use everyup.Demo.Route.Segments.{Piece, word, seg, split_slash, match_parts}

pub data Method : Type 0 where
  get post put delete other : Method

pub data MemberKind : Type 0 where
  agents monitors : MemberKind

-- The handlers, with what their patterns capture.
pub data Mutation : Type 0 where
  create_run put_profile : (agent_id : String) → Mutation
  create_infrastructure : Mutation
  rotate_infrastructure revoke_infrastructure : (id : String) → Mutation
  update_infrastructure delete_infrastructure : (id : String) → Mutation
  create_observed : Mutation
  rotate_observed revoke_observed set_log_filter : (id : String) → Mutation
  set_api_exclusions update_observed delete_observed : (id : String) → Mutation
  create_project : Mutation
  assign unassign : (project_id : String) (kind : MemberKind) (member_id : String) → Mutation
  update_project delete_project : (id : String) → Mutation
  create_monitor : Mutation
  update_monitor delete_monitor : (id : String) → Mutation
  create_agent : Mutation
  join_code rotate_agent_key delete_agent : (id : String) → Mutation
  delete_service echo_log_filter : (agent_id key : String) → Mutation
  ignored : Mutation

-- A pattern with no capture, with one, and with two.
abbrev exactly : List Piece → List String → Mutation → Option Mutation
exactly ps e m = elim (match_parts ps e) [ some cs ↦ some m | none ↦ none ]

abbrev one : List Piece → List String → (String → Mutation) → Option Mutation
one ps e k = elim (match_parts ps e) [ some (a ∷ []) ↦ some (k a) | _ ↦ none ]

abbrev two : List Piece → List String → (String → String → Mutation) → Option Mutation
two ps e k = elim (match_parts ps e) [ some (a ∷ b ∷ []) ↦ some (k a b) | _ ↦ none ]

infixr 20 ◌orelse◌
abbrev ◌orelse◌ : Option Mutation → Mutation → Mutation
none orelse m = m
some k orelse m = k

-- `/root`, `/root/([^/]+)` and `/root/([^/]+)/leaf`.
abbrev at_root : String → List Piece
at_root root = word "" ∷ word root ∷ []

abbrev item : String → List Piece
item root = word "" ∷ word root ∷ seg ∷ []

abbrev under : String → String → List Piece
under root leaf = word "" ∷ word root ∷ seg ∷ word leaf ∷ []

-- `/projects/([^/]+)/kind/([^/]+)`.
abbrev member : String → List Piece
member kind = word "" ∷ word "projects" ∷ seg ∷ word kind ∷ seg ∷ []

abbrev service : List Piece
service = word "" ∷ word "agents" ∷ seg ∷ word "services" ∷ seg ∷ []

abbrev service_filter : List Piece
service_filter = word "" ∷ word "agents" ∷ seg ∷ word "services" ∷ seg ∷ word "log-filter" ∷ []

route_post : List String → Mutation
route_post e =
    one (under "agents" "instrumentation-runs") e create_run
    orelse exactly (at_root "infrastructure-resources") e create_infrastructure
    orelse one (under "infrastructure-resources" "rotate-key") e rotate_infrastructure
    orelse one (under "infrastructure-resources" "revoke-key") e revoke_infrastructure
    orelse exactly (at_root "observed-services") e create_observed
    orelse one (under "observed-services" "rotate-key") e rotate_observed
    orelse one (under "observed-services" "revoke-key") e revoke_observed
    orelse exactly (at_root "projects") e create_project
    orelse exactly (at_root "services") e create_monitor
    orelse exactly (at_root "agents") e create_agent
    orelse one (under "agents" "join-code") e join_code
    orelse one (under "agents" "rotate-key") e rotate_agent_key
    orelse ignored

route_put : List String → Mutation
route_put e =
    one (under "agents" "profile") e put_profile
    orelse one (item "infrastructure-resources") e update_infrastructure
    orelse one (under "observed-services" "log-filter") e set_log_filter
    orelse one (under "observed-services" "api-exclusions") e set_api_exclusions
    orelse one (item "observed-services") e update_observed
    orelse two (member "agents") e (λ p m. assign p agents m)
    orelse two (member "monitors") e (λ p m. assign p monitors m)
    orelse one (item "projects") e update_project
    orelse one (item "services") e update_monitor
    orelse two service_filter e echo_log_filter
    orelse ignored

route_delete : List String → Mutation
route_delete e =
    one (item "infrastructure-resources") e delete_infrastructure
    orelse one (item "observed-services") e delete_observed
    orelse two (member "agents") e (λ p m. unassign p agents m)
    orelse two (member "monitors") e (λ p m. unassign p monitors m)
    orelse one (item "projects") e delete_project
    orelse one (item "services") e delete_monitor
    orelse one (item "agents") e delete_agent
    orelse two service e delete_service
    orelse ignored

unfoldable pub route_parts : Method → List String → Mutation
unfolding route_post route_put route_delete match_parts
route_parts get e = ignored
route_parts post e = route_post e
route_parts put e = route_put e
route_parts delete e = route_delete e
route_parts other e = ignored

-- The handler of a request whose method is not GET.
unfoldable pub route : Method → String → Mutation
route m e = route_parts m (split_slash e)
