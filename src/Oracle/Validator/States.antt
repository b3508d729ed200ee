-- ===== src/Oracle/Validator/States.antt =====
-- The states in which oracle/src/core/state-validator.ts lets an action through.
use agroasys_web3layer.Prelude.{ℕ, ◌+◌, ◌<◌, ◌≡◌, ◌↔◌, Option, none, some, arith}
use agroasys_web3layer.Exec.{ok}
use agroasys_web3layer.Oracle.Types.{
  Trade, TradeStatus, TriggerType, release_stage_1, confirm_arrival, finalize_trade, unknown_type,
}
use agroasys_web3layer.Oracle.Validator.{
  validate_trade_state, validate_release_stage_1, validate_confirm_arrival, validate_finalize_trade,
  validate_dispute_window, dispute_window_ms,
}

-- More than the dispute window lies between the arrival and now.
abbrev pub WindowIsOver : Option ℕ → ℕ → Type 0
WindowIsOver none now = ⊥
WindowIsOver (some arrival) now = arrival + dispute_window_ms < now

abbrev pub IsAllowed : Trade → TriggerType → ℕ → Type 0
IsAllowed trade release_stage_1 now = trade.status ≡ TradeStatus.locked
IsAllowed trade confirm_arrival now = trade.status ≡ TradeStatus.in_transit
IsAllowed trade finalize_trade now =
    (trade.status ≡ TradeStatus.arrival_confirmed) × WindowIsOver trade.arrival_timestamp now
IsAllowed trade (unknown_type name) now = ⊥

window_iff :
    (trade : Trade) (now : ℕ) (arrival : Option ℕ)
    → (validate_dispute_window trade now arrival ≡ ok tt) ↔ WindowIsOver arrival now
unfolding validate_dispute_window
window_iff trade now none = (λ h. cc, λ h. absurd h)
window_iff trade now (some arrival) = ground arith

-- An action is let through just in its state: stage 1 on a LOCKED trade, the arrival on one IN_TRANSIT,
-- and the finalization on one whose confirmed arrival lies more than 24 hours back; an unknown action
-- never is.
pub validate_trade_state-IsAllowed :
    (trade : Trade) (kind : TriggerType) (now : ℕ)
    → (validate_trade_state trade kind now ≡ ok tt) ↔ IsAllowed trade kind now
unfolding validate_trade_state validate_release_stage_1 validate_confirm_arrival
    validate_finalize_trade
validate_trade_state-IsAllowed trade release_stage_1 now = ground arith
validate_trade_state-IsAllowed trade confirm_arrival now = ground arith
validate_trade_state-IsAllowed trade finalize_trade now =
    ground (arith, window_iff trade now trade.arrival_timestamp)
validate_trade_state-IsAllowed trade (unknown_type name) now = (λ h. cc, λ h. absurd h)
