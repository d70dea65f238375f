-- ===== src/Setup/Tests.antt =====
-- Runs of the dialog of a new environment:
-- features/services/components/AddServiceModal.tsx.
use everyup.Common.{◌+◌, true, some, List, [], ◌∷◌, ◌≡◌, refl, if◌then◌else◌}
use everyup.Api.Agents.{AgentProfileKind, AgentCollectionCapability, AgentJoinCode}
use everyup.Uptime.Detail.{Settled, fulfilled}
use everyup.Demo.Profiles.{normalize_profile}
use everyup.Demo.Samples.{web_agent}
use everyup.Setup.Shell.{
  Quoting, shell_quote, shell_word, shell_word-shell_quote, build_install_command,
}
use everyup.Setup.AddService.{
  AddServiceModal, CheckAnswer, open_modal, settle_check, settle_refresh_code, toggle_capability,
}
use everyup.Setup.Capabilities.{first, switched, normalize_profile-Chosen}
use everyup.Setup.Announce.{Installing, shown, then_event, code_given, checked, created_once}

shell_word-shell_quote_example :
    shell_word Quoting.bare (shell_quote "it's $HOME") ≡ some "it's $HOME"
shell_word-shell_quote_example = shell_word-shell_quote "it's $HOME"

quoted : shell_quote "it's" ≡ "'it'\"'\"'s'"
unfolding shell_quote
quoted = refl

install_command :
    build_install_command (λ s. s) "http://host//" "a"
    ≡ "curl -fsSL 'http://host/api/v1/agents/install.sh' | sudo sh -s -- 'http://host' 'a'"
unfolding build_install_command
install_command = refl

abbrev with_logs : List AgentCollectionCapability
with_logs =
    toggle_capability AgentCollectionCapability.logs true (AgentCollectionCapability.uptime ∷ [])

normalize_profile-Chosen_example :
    normalize_profile
      (some (record { kind = some AgentProfileKind.custom; capabilities = some with_logs }))
    ≡ record { kind = AgentProfileKind.custom; capabilities = with_logs }
normalize_profile-Chosen_example = normalize_profile-Chosen with_logs (
    switched (AgentCollectionCapability.uptime ∷ []) AgentCollectionCapability.logs true first refl)

abbrev opened : AddServiceModal
opened = open_modal (some (web_agent.id, web_agent.name))

abbrev given_code : Settled AgentJoinCode
given_code = fulfilled (record { join_code = "code"; expires_at = 700000 })

abbrev answer : Settled CheckAnswer
answer = fulfilled (record {
  agents = web_agent ∷ [];
  services = [];
  check = record {
    status = record {
      connected = true;
      last_contact_at = some 150000;
      desired_hash = "h";
      applied_hash = "h";
      config_applied = true;
      profile = record { kind = AgentProfileKind.basic; capabilities = [] };
      signals = [];
    };
    last_enrolled_at = some 120000;
  };
})

abbrev coded : AddServiceModal
coded = settle_refresh_code 100000 given_code opened

abbrev connected_modal : AddServiceModal
connected_modal = settle_check (some 700000) answer coded

-- Two checks in a row.
abbrev installed : AddServiceModal
installed = settle_check (some 700000) answer connected_modal

abbrev opened_to_installed : Installing opened installed
opened_to_installed =
    then_event opened connected_modal installed
      (then_event opened coded connected_modal
        (then_event opened opened coded (shown opened) (code_given 100000 given_code))
        (checked (some 700000) answer))
      (checked (some 700000) answer)

created_once_example :
    installed.created
    ≡ (if installed.announced_connection then opened.created + 1 else opened.created)
unfolding open_modal
created_once_example = created_once opened installed refl opened_to_installed

announced_run : installed.created ≡ 1
unfolding open_modal settle_refresh_code settle_check
announced_run = refl
