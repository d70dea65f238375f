-- ===== src/Alerts/Channels.antt =====
-- The form of a notification channel: features/alerts/components/ChannelForm.tsx.
use Prim.Native.Char.{code}
use everyup.Common.{
  ℕ, String, Bool, false, Option, some, none, not, ◌&&◌, ◌||◌, if◌then◌else◌, ◌==◌, leb, nat_eq,
  or_else, after_prefix,
}
use everyup.Client.Errors.{get_error_message}
use everyup.Uptime.Detail.{Settled, fulfilled, rejected}
use everyup.Alerts.Requests.{ChannelConfig, CreateNotificationChannelData}

pub data ChannelType : Type 0 where
  telegram discord slack : ChannelType

abbrev pub type_text : ChannelType → String
type_text ChannelType.telegram = "telegram"
type_text ChannelType.discord = "discord"
type_text ChannelType.slack = "slack"

pub record ChannelFormValues : Type 0 where
  pub name : String
  pub type : ChannelType
  pub bot_token : String
  pub chat_id : String
  pub webhook_url : String

-- `config` is a JSON text.
pub record NotificationChannel : Type 0 where
  pub id : String
  pub name : String
  pub type : ChannelType
  pub config : String
  pub is_enabled : Bool
  pub created_at : ℕ

-- What JSON.parse makes of a configuration: its fields, each of which may be missing.
pub record ParsedConfig : Type 0 where
  pub bot_token : Option String
  pub chat_id : Option String
  pub webhook_url : Option String

-- `.` of a regular expression: no line terminator.
abbrev is_dot : String → Bool
is_dot String.[] = false
is_dot (String.◌∷◌ c s) =
    not
      (nat_eq (code c) 10 || (nat_eq (code c) 13 || (nat_eq (code c) 8232 || nat_eq (code c) 8233)))

abbrev follows : String → String → Bool
follows prefix s = elim (after_prefix prefix s) [ none ↦ false | some rest ↦ is_dot rest ]

-- /^https?:\/\/.+/.
unfoldable pub is_web_url : String → Bool
is_web_url s = follows "http://" s || follows "https://" s

-- `trim` and `length` of texts are the platform's.
pub record TextLength : Type 0 where
  pub trim : String → String
  pub size : String → ℕ

abbrev pub credentials : TextLength → ChannelFormValues → Bool
credentials w v = elim v.type [
  | ChannelType.telegram ↦ not (w.trim v.bot_token == "") && not (w.trim v.chat_id == "")
  | ChannelType.discord ↦ not (w.trim v.webhook_url == "") && is_web_url v.webhook_url
  | ChannelType.slack ↦ not (w.trim v.webhook_url == "") && is_web_url v.webhook_url
]

-- Whether channelSchema accepts the values; what it gives has the name trimmed.
unfoldable pub channel_schema : TextLength → ChannelFormValues → Bool
channel_schema w v = leb 2 (w.size (w.trim v.name)) && credentials w v

abbrev pub parsed : TextLength → ChannelFormValues → ChannelFormValues
parsed w v = record v { name = w.trim v.name }

abbrev pub built_config : ChannelFormValues → ChannelConfig
built_config v = elim v.type [
  | ChannelType.telegram ↦ ChannelConfig.telegram v.bot_token v.chat_id
  | ChannelType.discord ↦ ChannelConfig.discord v.webhook_url
  | ChannelType.slack ↦ ChannelConfig.slack v.webhook_url
]

unfoldable pub build_payload : ChannelFormValues → CreateNotificationChannelData
build_payload v = record { name = v.name; type = type_text v.type; config = built_config v }

abbrev telegram_field : ChannelType → Option String → String
telegram_field ChannelType.telegram o = or_else o ""
telegram_field _ o = ""

abbrev webhook_field : ChannelType → Option String → String
webhook_field ChannelType.telegram o = ""
webhook_field _ o = or_else o ""

-- The effect that shows the channel to edit, or an empty form. A configuration that JSON.parse
-- refuses is null; a field that the configuration has not is an empty input.
unfoldable pub load_channel :
    (String → Option ParsedConfig) → Option NotificationChannel → ChannelFormValues
load_channel parse none = record {
  name = "";
  type = ChannelType.telegram;
  bot_token = "";
  chat_id = "";
  webhook_url = "";
}
load_channel parse (some c) = elim (parse c.config) [
  | none ↦ record { name = c.name; type = c.type; bot_token = ""; chat_id = ""; webhook_url = "" }
  | some p ↦ record {
    name = c.name;
    type = c.type;
    bot_token = telegram_field c.type p.bot_token;
    chat_id = telegram_field c.type p.chat_id;
    webhook_url = webhook_field c.type p.webhook_url;
  }
]

pub data SentChannel : Type 0 where
  created : CreateNotificationChannelData → SentChannel
  updated : (id : String) → CreateNotificationChannelData → SentChannel

abbrev sent_channel : Option NotificationChannel → CreateNotificationChannelData → SentChannel
sent_channel none d = created d
sent_channel (some c) d = updated c.id d

abbrev pub channel_data : SentChannel → CreateNotificationChannelData
channel_data (created d) = d
channel_data (updated id d) = d

-- The request of a submission, or `none` where fields are asked for again.
unfoldable pub submit_channel :
    TextLength → Option NotificationChannel → ChannelFormValues → Option SentChannel
unfolding channel_schema build_payload
submit_channel w c v =
    if channel_schema w v then some (sent_channel c (build_payload (parsed w v))) else none

-- The test of a channel.
pub data TestState : Type 0 where
  idle loading success : TestState
  error : (message : String) → TestState

-- handleTest up to its request: the values as they are typed are sent, if they are valid.
unfoldable pub start_test :
    TextLength → ChannelFormValues → TestState × Option CreateNotificationChannelData
unfolding channel_schema build_payload
start_test w v =
    if channel_schema w v
    then (TestState.loading, some (build_payload v))
    else (TestState.error "필수 항목을 먼저 입력하세요", none)

unfoldable pub settle_test : Settled Unit → TestState → TestState
settle_test (fulfilled u) t = TestState.success
settle_test (rejected e) t = TestState.error (get_error_message e)
