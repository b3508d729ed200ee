-- ===== src/Notifications/Tests.antt =====
-- A terminal failure of the oracle, notified twice.
use agroasys_web3layer.Prelude.{
  ℕ, ◌≤◌, ◌<◌, true, false, ◌≡◌, ◌≢◌, refl, none, some, [], ◌∷◌, arith,
}
use agroasys_web3layer.Notifications.{
  NotificationEvent, critical, WebhookNotifierConfig, Webhook, Notifier, mark_sent, post, deliver,
  send_to, notify,
}
use agroasys_web3layer.Notifications.Cooldown.{notify-posts}
use agroasys_web3layer.Notifications.Cooldown.Repeated.{notify_all, notify-suppressed}

abbrev failure : NotificationEvent
failure = record {
  source = "oracle";
  event_type = "ORACLE_TRIGGER_TERMINAL_FAILURE";
  severity = critical;
  dedup_key = "oracle:TERMINAL_FAILURE:RELEASE_STAGE_1:7";
  message = "Trade 7 does not exist on-chain";
  correlation = record {
    trade_id = some "7";
    action_key = some "RELEASE_STAGE_1:7";
    request_id = none;
    tx_hash = none;
    run_key = none;
    mismatch_code = none;
  };
}

abbrev open_webhook : Webhook
open_webhook = record { accepts = λ n url payload. true; now = λ n. 1000 }

abbrev closed_webhook : Webhook
closed_webhook = record open_webhook { accepts = λ n url payload. false }

abbrev three_retries : WebhookNotifierConfig
three_retries = record {
  enabled = true;
  webhook_url = some "https://hooks.example/t";
  cooldown_ms = 60000;
  retry_attempts = some 3;
  retry_delay_ms = none;
  max_retry_delay_ms = none;
}

abbrev fresh : Notifier
fresh = record { dedup_cache = []; moment = 0; posts = 0; delays = [] }

notify-posts_example :
    ((notify closed_webhook three_retries failure fresh).1.posts ≤ 4)
    × ((notify closed_webhook three_retries failure fresh).1.posts ≤ 6)
notify-posts_example = notify-posts closed_webhook three_retries failure fresh

nonzero : (n : ℕ) → 0 < n → n ≢ 0
nonzero n positive h = absurd (omega arith)

-- Another failure that is notified in between.
abbrev other_failure : NotificationEvent
other_failure = record failure { dedup_key = "oracle:TERMINAL_FAILURE:RELEASE_STAGE_1:8" }

notify-suppressed_example :
    let s' =
      notify_all open_webhook three_retries
        (other_failure ∷ failure ∷ [])
        (notify open_webhook three_retries failure fresh).1 in
    ((notify open_webhook three_retries failure s').0 ≡ false)
    × ((notify open_webhook three_retries failure s').1.posts ≡ s'.posts)
unfolding notify send_to deliver post mark_sent
notify-suppressed_example =
    notify-suppressed open_webhook three_retries failure failure (other_failure ∷ failure ∷ [])
      fresh refl refl (λ n moment. (nonzero 1000 (omega arith), λ m from upto. omega arith))
