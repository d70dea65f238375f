-- ===== src/Alerts/RulesPage.antt =====
-- The handlers of the page of alert rules, with the requests that they leave unanswered:
-- features/alerts/components/AlertRulesTab.tsx.
use everyup.Common.{
  String, Bool, true, false, Option, some, none, List, [], ◌∷◌, ◌++◌, ◌≡◌, not, if◌then◌else◌, ◌==◌,
  map, keep, includes, remove_first,
}
use everyup.Uptime.Detail.{Settled, fulfilled, rejected}
use everyup.Alerts.Target.{AlertRule}
use everyup.Alerts.Labels.{TargetRows}

-- What `loadData` asks for, less the channels, which only the form shows.
pub record RulesData : Type 0 where
  pub rules : List AlertRule
  pub target_rows : TargetRows

pub record RulesPage : Type 0 where
  pub rules : List AlertRule
  pub target_rows : TargetRows
  pub is_loading : Bool
  pub toggling_ids : List String
  pub delete_target_id : Option String
  pub is_deleting : Bool
  pub form_open : Bool
  pub form_rule : Option AlertRule
  pub form_loading : Bool

unfoldable pub new_page : TargetRows → RulesPage
new_page none_yet = record {
  rules = [];
  target_rows = none_yet;
  is_loading = true;
  toggling_ids = [];
  delete_target_id = none;
  is_deleting = false;
  form_open = false;
  form_rule = none;
  form_loading = false;
}

unfoldable pub loaded_data : Settled RulesData → RulesPage → RulesPage
loaded_data (fulfilled d) p = record p {
  rules = d.rules;
  target_rows = d.target_rows;
  is_loading = false;
}
loaded_data (rejected e) p = record p { is_loading = false }

-- `new Set(prev).add(id)`, and `delete(id)`.
abbrev pub set_add : String → List String → List String
set_add id ids = if includes id ids then ids else ids ++ id ∷ []

abbrev pub set_delete : String → List String → List String
set_delete id ids = keep (λ x. not (x == id)) ids

-- handleToggle up to its request, and after the answer.
unfoldable pub start_toggle : String → RulesPage → RulesPage
start_toggle id p = record p { toggling_ids = set_add id p.toggling_ids }

abbrev set_enabled : String → Bool → AlertRule → AlertRule
set_enabled id on r = if r.id == id then record r { is_enabled = on } else r

unfoldable pub settle_toggle : String → Settled Bool → RulesPage → RulesPage
settle_toggle id (fulfilled on) p = record p {
  rules = map (set_enabled id on) p.rules;
  toggling_ids = set_delete id p.toggling_ids;
}
settle_toggle id (rejected e) p = record p { toggling_ids = set_delete id p.toggling_ids }

-- The delete button, the confirmation, and the answer.
unfoldable pub ask_delete : AlertRule → RulesPage → RulesPage
ask_delete r p = if r.is_system then p else record p { delete_target_id = some r.id }

unfoldable pub confirm_delete : RulesPage → RulesPage
confirm_delete p = elim p.delete_target_id [ none ↦ p | some id ↦ record p { is_deleting = true } ]

unfoldable pub settle_delete : Settled Unit → RulesPage → RulesPage
settle_delete (fulfilled u) p = record p { delete_target_id = none; is_deleting = false }
settle_delete (rejected e) p = record p { is_deleting = false }

unfoldable pub close_form : RulesPage → RulesPage
close_form p = record p { form_open = false; form_rule = none }

unfoldable pub handle_add_rule : RulesPage → RulesPage
handle_add_rule p = record p { form_rule = none; form_loading = false; form_open = true }

-- handleEdit up to its request, and after the answer.
unfoldable pub start_edit : RulesPage → RulesPage
start_edit p = record p { form_rule = none; form_open = true; form_loading = true }

unfoldable pub settle_edit : Settled AlertRule → RulesPage → RulesPage
unfolding close_form
settle_edit (fulfilled r) p = record p { form_rule = some r; form_loading = false }
settle_edit (rejected e) p = record (close_form p) { form_loading = false }

-- The page with the ids of the toggles and of the edits that are not answered yet.
pub record World : Type 0 where
  pub page : RulesPage
  pub toggles : List String
  pub edits : List String

-- The request of one id is answered.
abbrev pub answered : String → List String → List String
answered id ids = remove_first (λ x. x == id) ids

abbrev pub shown : RulesPage → World → World
shown p w = record w { page = p }

-- Answers come in any order. A switch is disabled while its rule is among `togglingIds`.
pub data PageEvent (w : World) : World → Type 0 where
  data_loaded : (d : Settled RulesData) → PageEvent w (shown (loaded_data d w.page) w)
  toggle_asked :
      (id : String)
      → includes id w.page.toggling_ids ≡ false
      → PageEvent w (record {
        page = start_toggle id w.page;
        toggles = w.toggles ++ id ∷ [];
        edits = w.edits;
      })
  toggle_answered :
      (id : String) (on : Settled Bool)
      → includes id w.toggles ≡ true
      → PageEvent w (record {
        page = settle_toggle id on w.page;
        toggles = answered id w.toggles;
        edits = w.edits;
      })
  delete_asked : (r : AlertRule) → PageEvent w (shown (ask_delete r w.page) w)
  delete_dropped : PageEvent w (shown (record w.page { delete_target_id = none }) w)
  delete_confirmed : PageEvent w (shown (confirm_delete w.page) w)
  delete_answered : (u : Settled Unit) → PageEvent w (shown (settle_delete u w.page) w)
  rule_added : PageEvent w (shown (handle_add_rule w.page) w)
  form_closed : PageEvent w (shown (close_form w.page) w)
  edit_asked :
      (id : String)
      → PageEvent w
          (record { page = start_edit w.page; toggles = w.toggles; edits = w.edits ++ id ∷ [] })
  edit_answered :
      (id : String) (r : Settled AlertRule)
      → includes id w.edits ≡ true
      → PageEvent w
          (record { page = settle_edit r w.page; toggles = w.toggles; edits = answered id w.edits })

pub data PageReached (rows : TargetRows) : World → Type 0 where
  start : PageReached rows (record { page = new_page rows; toggles = []; edits = [] })
  next : (w v : World) → PageReached rows w → PageEvent w v → PageReached rows v
