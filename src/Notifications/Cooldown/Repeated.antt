-- ===== src/Notifications/Cooldown/Repeated.antt =====
-- What the cooldown of notifications/src/index.ts holds back.
use agroasys_web3layer.Prelude.{
  ℕ, zero, suc, ◌+◌, ◌≤◌, ◌<◌, String, true, false, ◌≡◌, ◌≢◌, refl, Option, none, some, List, [],
  ◌∷◌, str_eq, eq_iff, ◌∙◌, ltb, arith, Bool-cases, inl, inr,
}
use agroasys_web3layer.Notifications.{
  NotificationEvent, WebhookNotifierConfig, Webhook, Notifier, SlackPayload, last_sent, cools_down,
  to_slack_payload, normalize_retry_attempts, mark_sent, post, pause, deliver, usable_url, send_to,
  notify,
}
use agroasys_web3layer.Notifications.Cooldown.{marked, notify-IsMarked, notify-held}

module _ (hook : Webhook) (config : WebhookNotifierConfig) where
  last_sent-pause :
      (k : String) (attempt : ℕ) (s : Notifier)
      → last_sent k (pause hook config attempt s).dedup_cache ≡ last_sent k s.dedup_cache
  unfolding pause
  last_sent-pause k attempt s =
      elim (Bool-cases (ltb attempt (normalize_retry_attempts config + 1))) [
        | inl again ↦ rw again refl
        | inr last ↦ rw last refl
      ]

  -- A delivery under another key leaves the key's entry alone.
  last_sent-deliver :
      (fuel attempt : ℕ) (k other url : String) (payload : SlackPayload) (s : Notifier)
      → str_eq other k ≡ false
      → last_sent k (deliver hook config fuel attempt other url payload s).1.dedup_cache
        ≡ last_sent k s.dedup_cache
  unfolding deliver post mark_sent
  last_sent-deliver zero attempt k other url payload s differs = refl
  last_sent-deliver (suc fuel) attempt k other url payload s differs =
      let s' = (post hook config url payload s).1 in
      let rest =
        last_sent-deliver fuel (attempt + 1) k other url payload (pause hook config attempt s')
          differs in
      elim (Bool-cases (hook.accepts s.moment url payload)) [
        | inl accepted ↦ rw accepted (rw differs refl)
        | inr failed ↦ rw failed (rest ∙ last_sent-pause k attempt s')
      ]

  moment-pause : (attempt : ℕ) (s : Notifier) → (pause hook config attempt s).moment ≡ s.moment
  unfolding pause
  moment-pause attempt s = elim (Bool-cases (ltb attempt (normalize_retry_attempts config + 1))) [
    | inl again ↦ rw again refl
    | inr last ↦ rw last refl
  ]

  moment-deliver :
      (fuel attempt : ℕ) (k url : String) (payload : SlackPayload) (s : Notifier)
      → s.moment ≤ (deliver hook config fuel attempt k url payload s).1.moment
  unfolding deliver post mark_sent
  moment-deliver zero attempt k url payload s = omega arith
  moment-deliver (suc fuel) attempt k url payload s =
      let s' = (post hook config url payload s).1 in
      let rest = moment-deliver fuel (attempt + 1) k url payload (pause hook config attempt s') in
      elim (Bool-cases (hook.accepts s.moment url payload)) [
        | inl accepted ↦ rw accepted (omega arith)
        | inr failed ↦ rw failed (omega (arith, rest, moment-pause attempt s'))
      ]

  -- A notification at a moment that the key still cools down leaves the key's entry alone.
  last_sent-send_to :
      (url : Option String) (event : NotificationEvent) (s : Notifier) (k : String) (at : ℕ)
      → last_sent k s.dedup_cache ≡ some at
      → at ≢ 0
      → hook.now s.moment < at + config.cooldown_ms
      → last_sent k (send_to hook config url event s).1.dedup_cache ≡ some at
  unfolding send_to
  last_sent-send_to none event s k at sent late soon = sent
  last_sent-send_to (some url) event s k at sent late soon =
      let begun : Notifier = record s { moment = suc s.moment } in
      elim (Bool-cases (
        cools_down (last_sent event.dedup_key s.dedup_cache) (hook.now s.moment)
          config.cooldown_ms)) [
            | inl cooling ↦ rw cooling sent
            | inr due ↦ rw due (elim (Bool-cases (str_eq event.dedup_key k)) [
              | inl is ↦
                  let same : event.dedup_key ≡ k = (eq_iff event.dedup_key k).0 is in
                  let cooling : cools_down (some at) (hook.now s.moment) config.cooldown_ms ≡ true =
                    ground (arith, late) in
                  let due' = rw (same, sent, cooling) at due in let bad : ⊥ = cc in elim bad [ ]
              | inr differs ↦
                  last_sent-deliver (normalize_retry_attempts config + 1) 1 k event.dedup_key url
                    (to_slack_payload event) begun differs
                  ∙ sent
            ])
          ]

  last_sent-notify :
      (event : NotificationEvent) (s : Notifier) (k : String) (at : ℕ)
      → last_sent k s.dedup_cache ≡ some at
      → at ≢ 0
      → hook.now s.moment < at + config.cooldown_ms
      → last_sent k (notify hook config event s).1.dedup_cache ≡ some at
  unfolding notify
  last_sent-notify event s k at sent late soon = elim (Bool-cases config.enabled) [
    | inl on ↦ rw on (last_sent-send_to (usable_url config.webhook_url) event s k at sent late soon)
    | inr off ↦ rw off sent
  ]

  moment-send_to :
      (url : Option String) (event : NotificationEvent) (s : Notifier)
      → s.moment ≤ (send_to hook config url event s).1.moment
  unfolding send_to
  moment-send_to none event s = omega arith
  moment-send_to (some url) event s =
      let begun : Notifier = record s { moment = suc s.moment } in
      let later =
        moment-deliver (normalize_retry_attempts config + 1) 1 event.dedup_key url
          (to_slack_payload event) begun in
      elim (Bool-cases (
        cools_down (last_sent event.dedup_key s.dedup_cache) (hook.now s.moment)
          config.cooldown_ms)) [
            | inl cooling ↦ rw cooling (omega arith)
            | inr due ↦ rw due (omega (arith, later))
          ]

  moment-notify :
      (event : NotificationEvent) (s : Notifier) → s.moment ≤ (notify hook config event s).1.moment
  unfolding notify
  moment-notify event s = elim (Bool-cases config.enabled) [
    | inl on ↦ rw on (moment-send_to (usable_url config.webhook_url) event s)
    | inr off ↦ rw off (omega arith)
  ]

  -- Notifications one after another.
  abbrev pub notify_all : List NotificationEvent → Notifier → Notifier
  notify_all [] s = s
  notify_all (event ∷ events) s = notify_all events (notify hook config event s).1

  moment-notify_all :
      (events : List NotificationEvent) (s : Notifier) → s.moment ≤ (notify_all events s).moment
  moment-notify_all [] s = omega arith
  moment-notify_all (event ∷ events) s =
      omega (arith, moment-notify event s, moment-notify_all events (notify hook config event s).1)

  -- At every moment from the first up to the second the clock reads less than the time.
  abbrev pub IsBefore : ℕ → ℕ → ℕ → Type 0
  IsBefore first last time = (m : ℕ) → first ≤ m → m ≤ last → hook.now m < time

  last_sent-notify_all :
      (events : List NotificationEvent) (s : Notifier) (k : String) (at : ℕ)
      → last_sent k s.dedup_cache ≡ some at
      → at ≢ 0
      → IsBefore s.moment (notify_all events s).moment (at + config.cooldown_ms)
      → last_sent k (notify_all events s).dedup_cache ≡ some at
  last_sent-notify_all [] s k at sent late soon = sent
  last_sent-notify_all (event ∷ events) s k at sent late soon =
      let s' = (notify hook config event s).1 in
      let first = moment-notify event s in
      let rest = moment-notify_all events s' in
      last_sent-notify_all events s' k at
        (last_sent-notify event s k at sent late (soon s.moment (omega arith) (omega arith))) late
        (λ m from upto. soon m (omega arith) upto)

  -- After a notification that was delivered, at a clock reading other than 0, and after any other
  -- notifications, one with the same key, whatever else it says, is not posted, where no clock reading
  -- since the delivery is as late as the cooldown's end.
  pub notify-suppressed :
      (event repeated : NotificationEvent) (between : List NotificationEvent) (s : Notifier)
      → (notify hook config event s).0 ≡ true
      → repeated.dedup_key ≡ event.dedup_key
      → let s' = notify_all between (notify hook config event s).1 in
        ((n : ℕ)
          → (notify hook config event s).1.moment ≡ suc n
          → (hook.now n ≢ 0) × IsBefore (suc n) s'.moment (hook.now n + config.cooldown_ms))
        → ((notify hook config repeated s').0 ≡ false)
          × ((notify hook config repeated s').1.posts ≡ s'.posts)
  notify-suppressed event repeated between s sent same soon =
      let delivered = (notify hook config event s).1 in
      let s' = notify_all between delivered in
      let (n, moment, entry) =
        marked hook config event.dedup_key delivered (notify-IsMarked hook config event s sent) in
      let (late, early) = soon n moment in
      let still =
        last_sent-notify_all between delivered event.dedup_key (hook.now n) entry late
          (rw moment early) in
      notify-held hook config repeated s' (hook.now n) (rw same still) late
        (early s'.moment (omega (arith, moment, moment-notify_all between delivered)) (omega arith))
