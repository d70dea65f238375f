-- ===== src/Alerts/ChannelLaws.antt =====
-- What the form of a notification channel sends: features/alerts/components/ChannelForm.tsx.
use everyup.Common.{ℕ, String, true, Option, some, none, ◌≡◌, refl, arith, ap, ◌∙◌}
use everyup.Alerts.Requests.{ChannelConfig}
use everyup.Alerts.Channels.{
  ChannelType, ChannelFormValues, NotificationChannel, ParsedConfig, TextLength, SentChannel,
  channel_schema, built_config, build_payload, parsed, load_channel, submit_channel,
}

-- The fields of the configuration that is sent.
abbrev pub config_fields : ChannelConfig → ParsedConfig
config_fields (ChannelConfig.telegram token chat) = record {
  bot_token = some token;
  chat_id = some chat;
  webhook_url = none;
}
config_fields (ChannelConfig.discord url) = record {
  bot_token = none;
  chat_id = none;
  webhook_url = some url;
}
config_fields (ChannelConfig.slack url) = record {
  bot_token = none;
  chat_id = none;
  webhook_url = some url;
}

-- The channel that a server keeps of what was sent, with its configuration as `text`.
abbrev pub stored : String → ChannelFormValues → String → ℕ → NotificationChannel
stored id v text now = record {
  id = id;
  name = v.name;
  type = v.type;
  config = text;
  is_enabled = true;
  created_at = now;
}

-- What the form shows of a stored channel: the inputs that its type does not have are empty.
abbrev shown_values : ChannelFormValues → ChannelFormValues
shown_values v = elim v.type [
  | ChannelType.telegram ↦ record v { webhook_url = "" }
  | ChannelType.discord ↦ record v { bot_token = ""; chat_id = "" }
  | ChannelType.slack ↦ record v { bot_token = ""; chat_id = "" }
]

load_parsed :
    (parse : String → Option ParsedConfig) (id text name token chat url : String) (t : ChannelType)
    (now : ℕ)
    → let v : ChannelFormValues = record {
      name = name;
      type = t;
      bot_token = token;
      chat_id = chat;
      webhook_url = url;
    } in
      parse text ≡ some (config_fields (built_config v))
      → load_channel parse (some (stored id v text now)) ≡ shown_values v
unfolding load_channel
load_parsed parse id text name token chat url ChannelType.telegram now p = rw (load_channel, p) refl
load_parsed parse id text name token chat url ChannelType.discord now p = rw (load_channel, p) refl
load_parsed parse id text name token chat url ChannelType.slack now p = rw (load_channel, p) refl

shown_valid :
    (w : TextLength) (v : ChannelFormValues)
    → channel_schema w v ≡ true
    → channel_schema w (shown_values v) ≡ true
unfolding channel_schema
shown_valid w v h = ground arith

shown_payload :
    (w : TextLength) (v : ChannelFormValues)
    → w.trim v.name ≡ v.name
    → build_payload (parsed w (shown_values v)) ≡ build_payload v
unfolding build_payload
shown_payload w v e = ground arith

sent_valid :
    (w : TextLength) (c : NotificationChannel) (v : ChannelFormValues)
    → channel_schema w v ≡ true
    → submit_channel w (some c) v ≡ some (SentChannel.updated c.id (build_payload (parsed w v)))
unfolding submit_channel
sent_valid w c v h = rw h refl

-- A channel whose stored configuration is parsed back to what was sent is, when it is opened and
-- saved as it is, sent again as it was.
pub submit_channel-load_channel :
    (w : TextLength) (parse : String → Option ParsedConfig) (id text : String)
    (v : ChannelFormValues) (now : ℕ)
    → channel_schema w v ≡ true
    → w.trim v.name ≡ v.name
    → parse text ≡ some (config_fields (built_config v))
    → submit_channel w
        (some (stored id v text now))
        (load_channel parse (some (stored id v text now)))
      ≡ some (SentChannel.updated id (build_payload v))
submit_channel-load_channel w parse id text v now h e p =
    ap (submit_channel w (some (stored id v text now)))
      (load_parsed parse id text v.name v.bot_token v.chat_id v.webhook_url v.type now p)
    ∙ (sent_valid w (stored id v text now) (shown_values v) (shown_valid w v h)
        ∙ ap (λ d. some (SentChannel.updated id d)) (shown_payload w v e))
