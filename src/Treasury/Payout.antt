-- ===== src/Treasury/Payout.antt =====
-- treasury/src/core/payout.ts, and the states of treasury/src/types.ts.
use agroasys_web3layer.Prelude.{
  ℕ, String, ◌≡◌, refl, ◌↔◌, List, [], ◌∷◌, any, ◌==◌, if◌then◌else◌, ◌<>◌,
}
use agroasys_web3layer.Exec.{Result, ok, err}

pub data PayoutState : Type 0 where
  pending_review ready_for_payout processing paid cancelled : PayoutState

abbrev pub state_name : PayoutState → String
state_name pending_review = "PENDING_REVIEW"
state_name ready_for_payout = "READY_FOR_PAYOUT"
state_name processing = "PROCESSING"
state_name paid = "PAID"
state_name cancelled = "CANCELLED"

abbrev state_code : PayoutState → ℕ
state_code pending_review = 0
state_code ready_for_payout = 1
state_code processing = 2
state_code paid = 3
state_code cancelled = 4

abbrev pub allowed_transitions : PayoutState → List PayoutState
allowed_transitions pending_review = ready_for_payout ∷ cancelled ∷ []
allowed_transitions ready_for_payout = processing ∷ cancelled ∷ []
allowed_transitions processing = paid ∷ cancelled ∷ []
allowed_transitions paid = []
allowed_transitions cancelled = []

unfoldable pub assert_valid_transition : PayoutState → PayoutState → Result String (Unit {0})
assert_valid_transition current next =
    if any (λ s. state_code s == state_code next) (allowed_transitions current)
    then ok tt
    else err
        ("Invalid payout state transition: " <> state_name current <> " -> " <> state_name next)

-- The steps of a payout, as the lifecycle is meant.
pub data Step : PayoutState → PayoutState → Type 0 where
  approve : Step pending_review ready_for_payout
  start : Step ready_for_payout processing
  settle : Step processing paid
  withdraw : Step pending_review cancelled
  stop : Step ready_for_payout cancelled
  abort : Step processing cancelled

not_ok : {e : String} → ◌≡◌ {A = Result String (Unit {0})} (err e) (ok tt) → ⊥
not_ok h = cc

ok-Step :
    (current next : PayoutState) → assert_valid_transition current next ≡ ok tt → Step current next
unfolding assert_valid_transition
ok-Step pending_review pending_review h = absurd (not_ok h)
ok-Step pending_review ready_for_payout h = approve
ok-Step pending_review processing h = absurd (not_ok h)
ok-Step pending_review paid h = absurd (not_ok h)
ok-Step pending_review cancelled h = withdraw
ok-Step ready_for_payout pending_review h = absurd (not_ok h)
ok-Step ready_for_payout ready_for_payout h = absurd (not_ok h)
ok-Step ready_for_payout processing h = start
ok-Step ready_for_payout paid h = absurd (not_ok h)
ok-Step ready_for_payout cancelled h = stop
ok-Step processing pending_review h = absurd (not_ok h)
ok-Step processing ready_for_payout h = absurd (not_ok h)
ok-Step processing processing h = absurd (not_ok h)
ok-Step processing paid h = settle
ok-Step processing cancelled h = abort
ok-Step paid pending_review h = absurd (not_ok h)
ok-Step paid ready_for_payout h = absurd (not_ok h)
ok-Step paid processing h = absurd (not_ok h)
ok-Step paid paid h = absurd (not_ok h)
ok-Step paid cancelled h = absurd (not_ok h)
ok-Step cancelled pending_review h = absurd (not_ok h)
ok-Step cancelled ready_for_payout h = absurd (not_ok h)
ok-Step cancelled processing h = absurd (not_ok h)
ok-Step cancelled paid h = absurd (not_ok h)
ok-Step cancelled cancelled h = absurd (not_ok h)

Step-ok :
    {current next : PayoutState} → Step current next → assert_valid_transition current next ≡ ok tt
unfolding assert_valid_transition
Step-ok approve = refl
Step-ok start = refl
Step-ok settle = refl
Step-ok withdraw = refl
Step-ok stop = refl
Step-ok abort = refl

-- A transition passes the check just where it is a step of the lifecycle.
pub assert_valid_transition-Step :
    (current next : PayoutState)
    → (assert_valid_transition current next ≡ ok tt) ↔ Step current next
assert_valid_transition-Step current next = (ok-Step current next, Step-ok)
