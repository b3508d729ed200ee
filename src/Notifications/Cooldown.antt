-- ===== src/Notifications/Cooldown.antt =====
-- The posts of notifications/src/index.ts.
pub mod Repeated
use agroasys_web3layer.Prelude.{
  ℕ, zero, suc, ◌+◌, ◌≤◌, ◌<◌, String, true, false, ◌≡◌, ◌≢◌, refl, Option, none, some, List, [],
  ◌∷◌, str_eq, eq_iff, ◌∙◌, ltb, arith, Bool-cases, inl, inr, eq_refl,
}
use agroasys_web3layer.Notifications.{
  NotificationEvent, WebhookNotifierConfig, Webhook, Notifier, SlackPayload, last_sent, cools_down,
  to_slack_payload, normalize_retry_attempts, mark_sent, post, pause, deliver, usable_url, send_to,
  notify,
}

module _ (hook : Webhook) (config : WebhookNotifierConfig) where
  posts-pause : (attempt : ℕ) (s : Notifier) → (pause hook config attempt s).posts ≡ s.posts
  unfolding pause
  posts-pause attempt s = elim (Bool-cases (ltb attempt (normalize_retry_attempts config + 1))) [
    | inl again ↦ rw again refl
    | inr last ↦ rw last refl
  ]

  posts-deliver :
      (fuel attempt : ℕ) (k url : String) (payload : SlackPayload) (s : Notifier)
      → (deliver hook config fuel attempt k url payload s).1.posts ≤ s.posts + fuel
  unfolding deliver post mark_sent
  posts-deliver zero attempt k url payload s = omega arith
  posts-deliver (suc fuel) attempt k url payload s =
      let s' = (post hook config url payload s).1 in
      let rest = posts-deliver fuel (attempt + 1) k url payload (pause hook config attempt s') in
      elim (Bool-cases (hook.accepts s.moment url payload)) [
        | inl accepted ↦ rw accepted (omega arith)
        | inr failed ↦ rw failed (omega (arith, rest, posts-pause attempt s'))
      ]

  send_to-posts :
      (url : Option String) (event : NotificationEvent) (s : Notifier)
      → (send_to hook config url event s).1.posts ≤ s.posts + (normalize_retry_attempts config + 1)
  unfolding send_to
  send_to-posts none event s = omega arith
  send_to-posts (some url) event s =
      let begun : Notifier = record s { moment = suc s.moment } in
      let sending =
        posts-deliver (normalize_retry_attempts config + 1) 1 event.dedup_key url
          (to_slack_payload event) begun in
      elim (Bool-cases (
        cools_down (last_sent event.dedup_key s.dedup_cache) (hook.now s.moment)
          config.cooldown_ms)) [ inl cooling ↦ rw cooling (omega arith) | inr due ↦ rw due sending ]

  -- The state after a delivery that was accepted: the key's latest entry is the clock's last reading.
  abbrev IsMarked : String → Notifier → Type 0
  IsMarked k s =
      (n : ℕ) × (cache : List (String × ℕ)) × (s.moment ≡ suc n)
      × (s.dedup_cache ≡ (k, hook.now n) ∷ cache)

  deliver-IsMarked :
      (fuel attempt : ℕ) (k url : String) (payload : SlackPayload) (s : Notifier)
      → (deliver hook config fuel attempt k url payload s).0 ≡ true
      → IsMarked k (deliver hook config fuel attempt k url payload s).1
  unfolding deliver post mark_sent
  deliver-IsMarked zero attempt k url payload s h = cc
  deliver-IsMarked (suc fuel) attempt k url payload s h =
      let s' = (post hook config url payload s).1 in
      let later =
        deliver-IsMarked fuel (attempt + 1) k url payload (pause hook config attempt s') in
      elim (Bool-cases (hook.accepts s.moment url payload)) [
        | inl accepted ↦ rw accepted (suc s.moment, s.dedup_cache, refl, refl)
        | inr failed ↦ rw failed (later (rw failed at h))
      ]

  send_to-IsMarked :
      (url : Option String) (event : NotificationEvent) (s : Notifier)
      → (send_to hook config url event s).0 ≡ true
      → IsMarked event.dedup_key (send_to hook config url event s).1
  unfolding send_to
  send_to-IsMarked none event s h = cc
  send_to-IsMarked (some url) event s h =
      let begun : Notifier = record s { moment = suc s.moment } in
      let sending =
        deliver-IsMarked (normalize_retry_attempts config + 1) 1 event.dedup_key url
          (to_slack_payload event) begun in
      elim (Bool-cases (
        cools_down (last_sent event.dedup_key s.dedup_cache) (hook.now s.moment)
          config.cooldown_ms)) [
            | inl cooling ↦ let held = rw cooling at h in cc
            | inr due ↦ rw due (sending (rw due at h))
          ]

  -- A notification, repeated or not, posts at most six times, and at most once more than the retries that
  -- are configured.
  pub notify-posts :
      (event : NotificationEvent) (s : Notifier)
      → ((notify hook config event s).1.posts ≤ s.posts + (normalize_retry_attempts config + 1))
        × ((notify hook config event s).1.posts ≤ s.posts + 6)
  unfolding notify
  notify-posts event s =
      let sending = send_to-posts (usable_url config.webhook_url) event s in
      elim (Bool-cases config.enabled) [
        | inl on ↦ rw on (sending, omega (arith, sending))
        | inr off ↦ rw off (omega arith, omega arith)
      ]

  suppressed :
      (url : Option String) (event : NotificationEvent) (s : Notifier) (at : ℕ)
      → last_sent event.dedup_key s.dedup_cache ≡ some at
      → at ≢ 0
      → hook.now s.moment < at + config.cooldown_ms
      → ((send_to hook config url event s).0 ≡ false)
        × ((send_to hook config url event s).1.posts ≡ s.posts)
  unfolding send_to
  suppressed none event s at sent late soon = (refl, refl)
  suppressed (some url) event s at sent late soon =
      let cooling : cools_down (some at) (hook.now s.moment) config.cooldown_ms ≡ true =
        ground (arith, late) in
      rw sent (rw cooling (refl, refl))

  marked :
      (k : String) (s : Notifier)
      → IsMarked k s
      → (n : ℕ) × (s.moment ≡ suc n) × (last_sent k s.dedup_cache ≡ some (hook.now n))
  marked k s (n, cache, moment, entry) = (n, moment, rw entry (rw (eq_refl k) refl))

  notify-IsMarked :
      (event : NotificationEvent) (s : Notifier)
      → (notify hook config event s).0 ≡ true
      → IsMarked event.dedup_key (notify hook config event s).1
  unfolding notify
  notify-IsMarked event s h = elim (Bool-cases config.enabled) [
    | inl on ↦ rw on (send_to-IsMarked (usable_url config.webhook_url) event s (rw on at h))
    | inr off ↦ let held = rw off at h in cc
  ]

  notify-held :
      (event : NotificationEvent) (s : Notifier) (at : ℕ)
      → last_sent event.dedup_key s.dedup_cache ≡ some at
      → at ≢ 0
      → hook.now s.moment < at + config.cooldown_ms
      → ((notify hook config event s).0 ≡ false) × ((notify hook config event s).1.posts ≡ s.posts)
  unfolding notify
  notify-held event s at sent late soon = elim (Bool-cases config.enabled) [
    | inl on ↦ rw on (suppressed (usable_url config.webhook_url) event s at sent late soon)
    | inr off ↦ rw off (refl, refl)
  ]
