-- ===== src/Alerts/RulesSettling.antt =====
-- What always holds of the page of alert rules while its requests are answered in any order:
-- features/alerts/components/AlertRulesTab.tsx.
use everyup.Common.{
  String, Bool, true, false, List, [], ◌∷◌, ◌++◌, ◌≡◌, ◌≢◌, refl, sym, ap, ◌∙◌, ◌==◌, includes,
  Distinct, Distinct-append, eq_iff, arith, Bool-cases, inl, inr,
}
use everyup.Uptime.Detail.{Settled, fulfilled, rejected}
use everyup.Alerts.Target.{AlertRule}
use everyup.Alerts.Labels.{TargetRows}
use everyup.Alerts.RulesPage.{
  RulesData, RulesPage, World, PageEvent, PageReached, start, next, new_page, loaded_data, set_add,
  set_delete, start_toggle, settle_toggle, ask_delete, confirm_delete, settle_delete, close_form,
  handle_add_rule, start_edit, settle_edit, answered, shown, data_loaded, toggle_asked,
  toggle_answered, delete_asked, delete_dropped, delete_confirmed, delete_answered, rule_added,
  form_closed, edit_asked, edit_answered,
}

-- A switch is disabled exactly while a request of its rule is not answered, no rule has two such
-- requests, and the form waits only while an edit is not answered.
abbrev pub IsSettling : World → Type 0
IsSettling w =
    (w.page.toggling_ids ≡ w.toggles)
    × (Distinct w.toggles × (w.page.form_loading ≡ true → w.edits ≢ []))

append_ne_nil : (xs : List String) (x : String) → xs ++ x ∷ [] ≢ []
append_ne_nil [] x h = ground arith
append_ne_nil (y ∷ ys) x h = ground arith

keep_all : (id : String) (ids : List String) → includes id ids ≡ false → set_delete id ids ≡ ids
keep_all id [] h = refl
keep_all id (x ∷ xs) h = ground (arith, keep_all id xs)

set_delete-eq-answered :
    (id : String) (ids : List String) → Distinct ids → set_delete id ids ≡ answered id ids
set_delete-eq-answered id [] d = refl
set_delete-eq-answered id (x ∷ xs) d = elim (Bool-cases (x == id)) [
  | inl e ↦ let same : x ≡ id = (eq_iff x id).0 e in rw e (keep_all id xs (rw (← same) d.0))
  | inr e ↦ rw e (ap (λ ys. x ∷ ys) (set_delete-eq-answered id xs d.1))
]

includes-answered :
    (k id : String) (ids : List String)
    → includes k ids ≡ false
    → includes k (answered id ids) ≡ false
includes-answered k id [] h = h
includes-answered k id (x ∷ xs) h = ground (arith, includes-answered k id xs)

Distinct-answered : (id : String) (ids : List String) → Distinct ids → Distinct (answered id ids)
Distinct-answered id [] d = tt
Distinct-answered id (x ∷ xs) d =
    ground (arith, includes-answered x id xs, Distinct-answered id xs d.1)

add_fresh :
    (id : String) (ids : List String) → includes id ids ≡ false → set_add id ids ≡ ids ++ id ∷ []
add_fresh id ids h = rw h

settled_loading : (r : Settled AlertRule) (p : RulesPage) → (settle_edit r p).form_loading ≡ false
unfolding settle_edit
settled_loading (fulfilled r) p = refl
settled_loading (rejected e) p = refl

edit_toggling :
    (r : Settled AlertRule) (p : RulesPage) → (settle_edit r p).toggling_ids ≡ p.toggling_ids
unfolding settle_edit
edit_toggling (fulfilled r) p = refl
edit_toggling (rejected e) p = refl

settled_toggling :
    (id : String) (on : Settled Bool) (p : RulesPage)
    → ((settle_toggle id on p).toggling_ids ≡ set_delete id p.toggling_ids)
      × ((settle_toggle id on p).form_loading ≡ p.form_loading)
unfolding settle_toggle
settled_toggling id (fulfilled on) p = (refl, refl)
settled_toggling id (rejected e) p = (refl, refl)

loaded_kept :
    (d : Settled RulesData) (p : RulesPage)
    → ((loaded_data d p).toggling_ids ≡ p.toggling_ids)
      × ((loaded_data d p).form_loading ≡ p.form_loading)
unfolding loaded_data
loaded_kept (fulfilled d) p = (refl, refl)
loaded_kept (rejected e) p = (refl, refl)

asked_kept :
    (r : AlertRule) (p : RulesPage)
    → ((ask_delete r p).toggling_ids ≡ p.toggling_ids)
      × ((ask_delete r p).form_loading ≡ p.form_loading)
unfolding ask_delete
asked_kept r p = ground arith

confirmed_kept :
    (p : RulesPage)
    → ((confirm_delete p).toggling_ids ≡ p.toggling_ids)
      × ((confirm_delete p).form_loading ≡ p.form_loading)
unfolding confirm_delete
confirmed_kept p = ground arith

deleted_kept :
    (u : Settled Unit) (p : RulesPage)
    → ((settle_delete u p).toggling_ids ≡ p.toggling_ids)
      × ((settle_delete u p).form_loading ≡ p.form_loading)
unfolding settle_delete
deleted_kept (fulfilled u) p = (refl, refl)
deleted_kept (rejected e) p = (refl, refl)

-- A change of the page that keeps the two parts keeps the property.
shown-IsSettling :
    (p : RulesPage) (w : World)
    → (p.toggling_ids ≡ w.page.toggling_ids) × (p.form_loading ≡ w.page.form_loading)
    → IsSettling w
    → IsSettling (shown p w)
shown-IsSettling p w (t, f) (h, (d, l)) = (t ∙ h, (d, λ e. l (sym f ∙ e)))

asked-IsSettling :
    (id : String) (w : World)
    → includes id w.page.toggling_ids ≡ false
    → IsSettling w
    → IsSettling
        (record { page = start_toggle id w.page; toggles = w.toggles ++ id ∷ []; edits = w.edits })
unfolding start_toggle
asked-IsSettling id w fresh (h, (d, l)) = (
  add_fresh id w.page.toggling_ids fresh ∙ ap (λ ids. ids ++ id ∷ []) h,
  (Distinct-append id w.toggles (rw (← h) fresh) d, l),
)

answered-IsSettling :
    (id : String) (on : Settled Bool) (w : World)
    → IsSettling w
    → IsSettling (record {
      page = settle_toggle id on w.page;
      toggles = answered id w.toggles;
      edits = w.edits;
    })
answered-IsSettling id on w (h, (d, l)) =
    let (t, f) = settled_toggling id on w.page in
    (
      t ∙ (ap (set_delete id) h ∙ set_delete-eq-answered id w.toggles d),
      (Distinct-answered id w.toggles d, λ e. l (sym f ∙ e)),
    )

PageEvent-IsSettling : (w v : World) → PageEvent w v → IsSettling w → IsSettling v
unfolding handle_add_rule close_form start_edit
PageEvent-IsSettling w _ (data_loaded d) i =
    shown-IsSettling (loaded_data d w.page) w (loaded_kept d w.page) i
PageEvent-IsSettling w _ (toggle_asked id e) i = asked-IsSettling id w e i
PageEvent-IsSettling w _ (toggle_answered id on e) i = answered-IsSettling id on w i
PageEvent-IsSettling w _ (delete_asked r) i =
    shown-IsSettling (ask_delete r w.page) w (asked_kept r w.page) i
PageEvent-IsSettling w _ delete_dropped i = i
PageEvent-IsSettling w _ delete_confirmed i =
    shown-IsSettling (confirm_delete w.page) w (confirmed_kept w.page) i
PageEvent-IsSettling w _ (delete_answered u) i =
    shown-IsSettling (settle_delete u w.page) w (deleted_kept u w.page) i
PageEvent-IsSettling w _ rule_added (h, (d, l)) = (h, (d, λ e. absurd (ground arith)))
PageEvent-IsSettling w _ form_closed i = i
PageEvent-IsSettling w _ (edit_asked id) (h, (d, l)) = (h, (d, λ e. append_ne_nil w.edits id))
PageEvent-IsSettling w _ (edit_answered id r e) (h, (d, l)) =
    (edit_toggling r w.page ∙ h, (d, λ g. absurd (ground (arith, settled_loading r w.page))))

-- In every state that the page can reach, with its answers in any order, a switch is disabled
-- exactly while a request of its rule is not answered, no rule has two such requests, and the form
-- waits only while an edit is not answered.
pub PageReached-IsSettling : (rows : TargetRows) (w : World) → PageReached rows w → IsSettling w
unfolding new_page
PageReached-IsSettling rows _ start = (refl, (tt, λ e. absurd (ground arith)))
PageReached-IsSettling rows _ (next w v r e) =
    PageEvent-IsSettling w v e (PageReached-IsSettling rows w r)
