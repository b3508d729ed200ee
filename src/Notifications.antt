-- ===== src/Notifications.antt =====
-- notifications/src/index.ts: the webhook notifier. Logging and the request's timeout are not modelled.
pub mod Cooldown
mod Tests
use agroasys_web3layer.Prelude.{
  ℕ, zero, suc, ◌+◌, ◌-◌, ◌*◌, ◌^◌, String, Bool, true, false, not, ◌&&◌, Option, none, some, List,
  [], ◌∷◌, min, max, ltb, ◌==◌, str_eq, if◌then◌else◌, ◌<>◌,
}

pub data NotificationSeverity : Type 0 where
  info warning critical : NotificationSeverity

pub record Correlation : Type 0 where
  pub trade_id : Option String
  pub action_key : Option String
  pub request_id : Option String
  pub tx_hash : Option String
  pub run_key : Option String
  pub mismatch_code : Option String

-- The metadata, which no code reads, is left out.
pub record NotificationEvent : Type 0 where
  pub source : String
  pub event_type : String
  pub severity : NotificationSeverity
  pub dedup_key : String
  pub message : String
  pub correlation : Correlation

-- The numbers as `Math.trunc` leaves them, a negative one as 0.
pub record WebhookNotifierConfig : Type 0 where
  pub enabled : Bool
  pub webhook_url : Option String
  pub cooldown_ms : ℕ
  pub retry_attempts : Option ℕ
  pub retry_delay_ms : Option ℕ
  pub max_retry_delay_ms : Option ℕ

pub record SlackField : Type 0 where
  pub title : String
  pub value : String
  pub is_short : Bool

pub record SlackPayload : Type 0 where
  pub text : String
  pub color : String
  pub fields : List SlackField

pub record Webhook : Type 0 where
  -- whether a request at a moment is answered by a success
  pub accepts : ℕ → String → SlackPayload → Bool
  pub now : ℕ → ℕ

-- The newest entry of the cache stands first; the delays are logged, the latest first.
pub record Notifier : Type 0 where
  pub dedup_cache : List (String × ℕ)
  pub moment : ℕ
  pub posts : ℕ
  pub delays : List ℕ

abbrev or_default : Option ℕ → ℕ → ℕ
or_default none d = d
or_default (some n) d = n

abbrev max_retry_attempts_cap : ℕ
max_retry_attempts_cap = 5

abbrev pub normalize_retry_attempts : WebhookNotifierConfig → ℕ
normalize_retry_attempts config = min (or_default config.retry_attempts 0) max_retry_attempts_cap

abbrev normalize_retry_delay_ms : WebhookNotifierConfig → ℕ
normalize_retry_delay_ms config = or_default config.retry_delay_ms 250

abbrev normalize_max_retry_delay_ms : WebhookNotifierConfig → ℕ → ℕ
normalize_max_retry_delay_ms config base = max base (or_default config.max_retry_delay_ms 2000)

abbrev retry_delay_for_attempt : ℕ → ℕ → ℕ → ℕ
retry_delay_for_attempt attempt base max_delay = min (base * 2 ^ (attempt - 1)) max_delay

abbrev color_for_severity : NotificationSeverity → String
color_for_severity critical = "#d32f2f"
color_for_severity warning = "#f57c00"
color_for_severity info = "#1976d2"

abbrev severity_route_for_severity : NotificationSeverity → String
severity_route_for_severity critical = "pager"
severity_route_for_severity warning = "operations"
severity_route_for_severity info = "informational"

abbrev severity_name : NotificationSeverity → String
severity_name critical = "critical"
severity_name warning = "warning"
severity_name info = "info"

template_version_for_type : String → String
template_version_for_type kind =
    if str_eq kind "ORACLE_TRIGGER_TERMINAL_FAILURE"
    then "oracle-terminal-v1"
    else if str_eq kind "ORACLE_TRIGGER_EXHAUSTED_NEEDS_REDRIVE"
    then "oracle-redrive-v1"
    else if str_eq kind "ORACLE_CONFIRMATION_TIMEOUT"
    then "oracle-confirmation-timeout-v1"
    else if str_eq kind "RECONCILIATION_CRITICAL_DRIFT"
    then "reconciliation-critical-drift-v1"
    else "generic-v1"

-- The rows whose value is truthy.
abbrev shown_rows : List (String × Option String) → List SlackField
shown_rows [] = []
shown_rows ((title, none) ∷ rows) = shown_rows rows
shown_rows ((title, some value) ∷ rows) =
    let rest = shown_rows rows in
    if str_eq value ""
    then rest
    else record { title = title; value = value; is_short = true } ∷ rest

pub to_slack_payload : NotificationEvent → SlackPayload
unfolding template_version_for_type
to_slack_payload event = record {
  text =
      "["
      <> event.source
      <> "] "
      <> event.event_type
      <> " ("
      <> severity_name event.severity
      <> ")";
  color = color_for_severity event.severity;
  fields =
      record { title = "message"; value = event.message; is_short = false }
      ∷ shown_rows (
          ("tradeId", event.correlation.trade_id)
          ∷ ("actionKey", event.correlation.action_key)
          ∷ ("requestId", event.correlation.request_id)
          ∷ ("txHash", event.correlation.tx_hash)
          ∷ ("runKey", event.correlation.run_key)
          ∷ ("mismatchCode", event.correlation.mismatch_code)
          ∷ ("templateVersion", some (template_version_for_type event.event_type))
          ∷ ("severityRoute", some (severity_route_for_severity event.severity))
          ∷ ("routingVersion", some "2026-02-21")
          ∷ []);
}

abbrev pub last_sent : String → List (String × ℕ) → Option ℕ
last_sent k [] = none
last_sent k ((key, at) ∷ cache) = if str_eq key k then some at else last_sent k cache

-- `previousTimestamp && now - previousTimestamp < cooldownMs`, where 0 is falsy.
abbrev pub cools_down : Option ℕ → ℕ → ℕ → Bool
cools_down none now cooldown = false
cools_down (some at) now cooldown = not (at == 0) && ltb now (at + cooldown)

-- `!this.config.webhookUrl` drops the notification.
abbrev pub usable_url : Option String → Option String
usable_url none = none
usable_url (some url) = if str_eq url "" then none else some url

abbrev pub wait : ℕ → Notifier → Notifier
wait delay s = record s { delays = delay ∷ s.delays }

module _ (hook : Webhook) (config : WebhookNotifierConfig) where
  mark_sent : String → Notifier → Notifier
  mark_sent k s = record s {
    dedup_cache = (k, hook.now s.moment) ∷ s.dedup_cache;
    moment = suc s.moment;
  }

  post : String → SlackPayload → Notifier → Bool × Notifier
  post url payload s =
      (hook.accepts s.moment url payload, record s { moment = suc s.moment; posts = suc s.posts })

  -- The pause after a failed attempt, where another one follows.
  pause : ℕ → Notifier → Notifier
  pause attempt s =
      let base = normalize_retry_delay_ms config in
      if ltb attempt (normalize_retry_attempts config + 1)
      then wait (retry_delay_for_attempt attempt base (normalize_max_retry_delay_ms config base)) s
      else s

  -- The `for` from `attempt` on; the fuel counts the attempts that are left.
  pub deliver : ℕ → ℕ → String → String → SlackPayload → Notifier → Bool × Notifier
  unfolding mark_sent post pause
  deliver zero attempt k url payload s = (false, s)
  deliver (suc fuel) attempt k url payload s =
      let (accepted, s') = post url payload s in
      let rest = deliver fuel (attempt + 1) k url payload (pause attempt s') in
      if accepted then (true, mark_sent k s') else rest

  send_to : Option String → NotificationEvent → Notifier → Bool × Notifier
  unfolding deliver to_slack_payload
  send_to none event s = (false, s)
  send_to (some url) event s =
      let s' : Notifier = record s { moment = suc s.moment } in
      if cools_down (last_sent event.dedup_key s.dedup_cache) (hook.now s.moment) config.cooldown_ms
      then (false, s')
      else deliver (normalize_retry_attempts config + 1) 1 event.dedup_key url
          (to_slack_payload event) s'

  pub notify : NotificationEvent → Notifier → Bool × Notifier
  unfolding send_to
  notify event s =
      if not config.enabled then (false, s) else send_to (usable_url config.webhook_url) event s
