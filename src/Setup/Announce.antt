-- ===== src/Setup/Announce.antt =====
-- How often the dialog tells its page of a new connection:
-- features/services/components/AddServiceModal.tsx.
use everyup.Common.{
  ℕ, ◌+◌, Bool, true, false, Option, some, ◌≡◌, refl, not, ◌&&◌, ◌==◌, if◌then◌else◌, arith,
  Bool-cases, Option-cases, inl, inr,
}
use everyup.Api.Agents.{AgentJoinCode, ConnectedAgent}
use everyup.Uptime.Detail.{Settled, fulfilled, rejected}
use everyup.Setup.AddService.{
  AddServiceModal, CheckAnswer, settle_check, settle_refresh_code, start_refresh_code, expire_code,
  confirmed, found_agent,
}

-- What happens once the dialog shows the command to install.
pub data InstallEvent (m : AddServiceModal) : AddServiceModal → Type 0 where
  code_asked : InstallEvent m (start_refresh_code m)
  code_given : (now : ℕ) (r : Settled AgentJoinCode) → InstallEvent m (settle_refresh_code now r m)
  code_timed_out : InstallEvent m (expire_code m)
  checked : (asked : Option ℕ) (a : Settled CheckAnswer) → InstallEvent m (settle_check asked a m)

pub data Installing : AddServiceModal → AddServiceModal → Type 0 where
  shown : (m : AddServiceModal) → Installing m m
  then_event : (l m n : AddServiceModal) → Installing l m → InstallEvent m n → Installing l n

abbrev announced : AddServiceModal → ℕ
announced m = if m.announced_connection then 1 else 0

abbrev with_agent : ConnectedAgent → CheckAnswer → AddServiceModal → AddServiceModal
with_agent c a m = record m {
  setup_status = some a.check;
  setup_error = "";
  connected_agent = some c;
  detected_services = a.services;
}

-- The calls of `onCreated` but that of the announcement.
abbrev Balanced : AddServiceModal → AddServiceModal → Type 0
Balanced l m = l.created + announced m ≡ m.created + announced l

announce-Balanced :
    (due : Bool) (l m n : AddServiceModal)
    → m.created ≡ l.created
    → m.announced_connection ≡ l.announced_connection
    → n.created ≡ l.created + 1
    → n.announced_connection ≡ true
    → Balanced l (if due && not l.announced_connection then n else m)
announce-Balanced due l m n e f g h = ground arith

check-Balanced :
    (asked : Option ℕ) (a : Settled CheckAnswer) (m : AddServiceModal)
    → Balanced m (settle_check asked a m)
unfolding settle_check
check-Balanced asked (rejected e) m = refl
check-Balanced asked (fulfilled a) m = elim (Option-cases (found_agent a m)) [
  | inl e ↦ rw (settle_check, e) refl
  | inr (c, e) ↦
      rw (settle_check, e)
        (announce-Balanced (confirmed m.existing asked a.check) m (with_agent c a m)
          (record (with_agent c a m) { announced_connection = true; created = m.created + 1 }) refl
          refl refl refl)
]

event-Balanced : (m n : AddServiceModal) → InstallEvent m n → Balanced m n
unfolding start_refresh_code settle_refresh_code expire_code
event-Balanced m _ code_asked = elim (Bool-cases (m.agent_id == "")) [
  | inl e ↦ rw e refl
  | inr e ↦ rw e refl
]
event-Balanced m _ (code_given now (fulfilled r)) = refl
event-Balanced m _ (code_given now (rejected e)) = refl
event-Balanced m _ code_timed_out = refl
event-Balanced m _ (checked asked a) = check-Balanced asked a m

Balanced-chain : (l m n : AddServiceModal) → Balanced l m → Balanced m n → Balanced l n
Balanced-chain l m n h k = omega (arith, h, k)

pub Installing-Balanced : (l m : AddServiceModal) → Installing l m → Balanced l m
Installing-Balanced l _ (shown _) = refl
Installing-Balanced l n (then_event _ m _ i e) =
    Balanced-chain l m n (Installing-Balanced l m i) (event-Balanced m n e)

-- However often the connection is checked and new codes are asked for, a dialog that has not
-- announced its connection yet calls `onCreated` once more if it announces it, and not at all
-- otherwise.
pub created_once :
    (l m : AddServiceModal)
    → l.announced_connection ≡ false
    → Installing l m
    → m.created ≡ (if m.announced_connection then l.created + 1 else l.created)
created_once l m h i = ground (arith, Installing-Balanced l m i)
