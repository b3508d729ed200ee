-- ===== src/Gateway/Compliance/Resume.antt =====
-- Every call of gateway/src/core/complianceService.ts is a step, and what ends a block.
use agroasys_web3layer.Prelude.{
  String, Bool, true, false, ◌≡◌, ◌≢◌, refl, sym, ap, ◌∙◌, inl, inr, Option, none, some, List, [],
  ◌∷◌, Bool-cases, arith, find, str_eq, eq_iff, if◌then◌else◌,
}
use agroasys_web3layer.Exec.{Result, ok, err}
use agroasys_web3layer.Exec.Triple.{Outcome, Triple-bind, Triple-post}
use agroasys_web3layer.Gateway.{Failure}
use agroasys_web3layer.Gateway.Compliance.{
  allow, not_blocked, blocked, resume_pending, ComplianceBlockState, ComplianceDecisionRecord,
  OracleProgressionBlockRecord, Environment, Register,
}
use agroasys_web3layer.Gateway.Compliance.Store.{
  is_block_of, block_of, latest, upsert_block, get_latest_decision, get_oracle_progression_block,
}
use agroasys_web3layer.Gateway.Compliance.Service.{
  ControlBody, MutationContext, resume_existing, resume_oracle_progression, in_force, is_blocked,
  state_is_blocked, Mutation, create, block, resume, apply,
}
use agroasys_web3layer.Gateway.Compliance.Reads.{
  Same, get_latest_decision-Outcome, get_block-Outcome,
}
use agroasys_web3layer.Gateway.Compliance.Steps.{
  Step, IsStep, IsResumed, unchanged, decided, blocks_trade, resumes_trade, Steps, throw-Steps,
  resolve-first, resume_with-Steps, create_decision-Steps, block_oracle_progression-Steps,
}

block_of-trade :
    (trade : String) (blocks : List OracleProgressionBlockRecord) (b : OracleProgressionBlockRecord)
    → block_of trade blocks ≡ some b
    → b.trade_id ≡ trade
block_of-trade trade [] b h = cc
block_of-trade trade (c ∷ blocks) b h = elim (Bool-cases (is_block_of trade c)) [
  | inl is ↦
      let first : some c ≡ some b = rw (is, find) at h in
      let same : c ≡ b = cc in
      ap (λ x. x.trade_id) (sym same) ∙ ground (arith, is, eq_iff c.trade_id trade)
  | inr other ↦ block_of-trade trade blocks b (rw (other, find) at h)
]

in_force-is :
    (o : Option OracleProgressionBlockRecord) (b : OracleProgressionBlockRecord)
    → in_force o ≡ some b
    → (o ≡ some b) × (b.block_state ≢ not_blocked)
in_force-is none b h = cc
in_force-is (some c) b h = go c.block_state refl h
  where
    go :
        (state : ComplianceBlockState)
        → c.block_state ≡ state
        → elim state as (λ x. Option OracleProgressionBlockRecord) [
          | not_blocked ↦ none
          | _ ↦ some c
        ]
          ≡ some b
        → (some c ≡ some b) × (b.block_state ≢ not_blocked)
    go not_blocked at e = cc
    go blocked at e =
        (e, λ free. let same : c ≡ b = cc in cc (at, ap (λ x. x.block_state) same, free))
    go resume_pending at e =
        (e, λ free. let same : c ≡ b = cc in cc (at, ap (λ x. x.block_state) same, free))

module _ (env : Environment) (s0 : Register) (call : Mutation) (trade : String) (body : ControlBody)
    (context : MutationContext) (is : call ≡ resume trade body context) where
  resume_existing-Steps :
      (existing : Option OracleProgressionBlockRecord)
      → ((b : OracleProgressionBlockRecord)
          → existing ≡ some b
          → IsResumed env s0 call trade body context b)
      → Steps env s0 call (resume_existing env trade body context existing)
  unfolding resume_existing
  resume_existing-Steps none same = throw-Steps env s0 call _
  resume_existing-Steps (some b) same = resolve-first env s0 call trade body context _ (λ requested.
      Triple-bind (get_latest_decision env trade) _ _
        (Triple-post (λ r s h. h) (λ s h. unchanged h) (get_latest_decision-Outcome env s0 trade))
        (λ newest. record {
          at = λ s (h, reading).
              (resume_with-Steps env s0 call trade body context b requested newest (same b refl)
                  reading).at
                s h;
        }))

  resume_oracle_progression-Steps :
      Steps env s0 call (resume_oracle_progression env trade body context)
  unfolding resume_oracle_progression
  resume_oracle_progression-Steps =
      Triple-bind (get_oracle_progression_block env trade) _ _
        (Triple-post (λ r s h. h) (λ s h. unchanged h) (get_block-Outcome env s0 trade))
        (λ r. record {
          at = λ s (h, value).
              (resume_existing-Steps (in_force r) (λ b e.
                  let (at, was) = in_force-is r b e in
                  let found = sym value ∙ at in
                  (is, block_of-trade trade s0.blocks b found, found, was))).at
                s h;
        })

module _ (env : Environment) where
  steps :
      {A : Type 0} (call : Mutation) (r : Result Failure A) (s0 s : Register)
      → Outcome (λ _. IsStep env s0 call) (IsStep env s0 call) r s
      → Step env s0 s call
  steps call (ok a) s0 s h = h
  steps call (err e) s0 s h = h

  same : (s : Register) → Same s s
  same s = (refl, refl, refl)

  -- Every call changes nothing, or makes the step of its kind: a creation records a decision with the body's
  -- trade, result and reason under an id that no decision has; a block stores the state blocked for its
  -- trade, which was not blocked; a resumption ends the block that its trade had, where the trade's latest
  -- decision is ALLOW. Each of them adds the audit entry of its own event, with its subject, its actor and
  -- its idempotency key, and nothing else.
  pub apply-Step : (m : Mutation) (s : Register) → Step env s (apply env m s) m
  unfolding apply
  apply-Step (create body context) s =
      let m = create body context in
      steps m _ s _ ((create_decision-Steps env s m body context refl).at s (same s))
  apply-Step (block trade body context) s =
      let m = block trade body context in
      steps m _ s _ ((block_oracle_progression-Steps env s m trade body context refl).at s (same s))
  apply-Step (resume trade body context) s =
      let m = resume trade body context in
      steps m _ s _
        ((resume_oracle_progression-Steps env s m trade body context refl).at s (same s))

block_of-cons :
    (trade : String) (c : OracleProgressionBlockRecord) (blocks : List OracleProgressionBlockRecord)
    → block_of trade (c ∷ blocks) ≡ (if is_block_of trade c then some c else block_of trade blocks)
block_of-cons trade c blocks = elim (Bool-cases (is_block_of trade c)) [
  | inl is ↦ rw (is, find) refl
  | inr other ↦ rw (other, find) refl
]

-- The three texts are compared the way equality wants it.
same_trade : (c b trade : String) → str_eq c b ≡ true → str_eq b trade ≡ str_eq c trade
same_trade c b trade h = let e : c ≡ b = ground (arith, h, eq_iff c b) in rw e refl

other_trade :
    (c b trade : String) → str_eq c b ≡ false → str_eq b trade ≡ true → str_eq c trade ≡ false
other_trade c b trade h is = ground (arith, h, is, eq_iff c b, eq_iff b trade, eq_iff c trade)

if_else :
    {A : Type 0} (p q : Bool) (x y z : A)
    → (p ≡ true → q ≡ false)
    → (if q then x else if p then y else z) ≡ (if p then y else if q then x else z)
if_else true true x y z h = let bad : true ≡ false = h refl in cc
if_else true false x y z h = refl
if_else false true x y z h = refl
if_else false false x y z h = refl

if_twice :
    {A : Type 0} (p q : Bool) (x y z : A)
    → p ≡ q
    → (if p then x else z) ≡ (if p then x else if q then y else z)
if_twice true q x y z h = refl
if_twice false true x y z h = cc
if_twice false false x y z h = refl

block_of-upsert :
    (trade : String) (b : OracleProgressionBlockRecord) (blocks : List OracleProgressionBlockRecord)
    → block_of trade (upsert_block b blocks)
      ≡ (if is_block_of trade b then some b else block_of trade blocks)
block_of-upsert trade b [] = block_of-cons trade b []
block_of-upsert trade b (c ∷ blocks) = elim (Bool-cases (is_block_of b.trade_id c)) [
  | inl is ↦ rw is (
      block_of-cons trade b blocks
      ∙ (if_twice (is_block_of trade b) (is_block_of trade c) (some b) (some c)
            (block_of trade blocks) (same_trade c.trade_id b.trade_id trade is)
          ∙ ap (λ o. if is_block_of trade b then some b else o)
              (sym (block_of-cons trade c blocks))))
  | inr other ↦ rw other (
      block_of-cons trade c (upsert_block b blocks)
      ∙ (ap (λ o. if is_block_of trade c then some c else o) (block_of-upsert trade b blocks)
          ∙ (if_else (is_block_of trade b) (is_block_of trade c) (some c) (some b)
                (block_of trade blocks) (other_trade c.trade_id b.trade_id trade other)
              ∙ ap (λ o. if is_block_of trade b then some b else o)
                  (sym (block_of-cons trade c blocks)))))
]

-- The trade's latest decision is ALLOW.
abbrev pub IsAllowed : Environment → String → Register → Type 0
IsAllowed env trade s =
    (d : ComplianceDecisionRecord) × (latest env trade s.decisions ≡ some d) × (d.result ≡ allow)

module _ (env : Environment) (trade : String) where
  stays :
      (b : OracleProgressionBlockRecord) (s s' : Register)
      → s'.blocks ≡ upsert_block b s.blocks
      → is_block_of trade b ≡ false
      → block_of trade s'.blocks ≡ block_of trade s.blocks
  stays b s s' stored other =
      ap (block_of trade) stored
      ∙ (block_of-upsert trade b s.blocks
          ∙ ap (λ x. if x then some b else block_of trade s.blocks) other)

  stored_first :
      (b : OracleProgressionBlockRecord) (s s' : Register)
      → s'.blocks ≡ upsert_block b s.blocks
      → is_block_of trade b ≡ true
      → block_of trade s'.blocks ≡ some b
  stored_first b s s' stored is =
      ap (block_of trade) stored
      ∙ (block_of-upsert trade b s.blocks
          ∙ ap (λ x. if x then some b else block_of trade s.blocks) is)

  kept :
      {A : Type 0} (s s' : Register)
      → is_blocked (block_of trade s.blocks) ≡ true
      → is_blocked (block_of trade s'.blocks) ≡ false
      → block_of trade s'.blocks ≡ block_of trade s.blocks
      → A
  kept s s' before after e = let bad : ⊥ = cc (before, after, ap is_blocked e) in elim bad [ ]

  unblocks :
      {m : Mutation} (s s' : Register)
      → is_blocked (block_of trade s.blocks) ≡ true
      → is_blocked (block_of trade s'.blocks) ≡ false
      → Step env s s' m
      → IsAllowed env trade s
  unblocks s s' before after (unchanged (ds, bs, log)) =
      kept s s' before after (ap (block_of trade) bs)
  unblocks s s' before after (decided d entry fields free said ds bs log) =
      kept s s' before after (ap (block_of trade) bs)
  unblocks s s' before after (blocks_trade b entry of_trade state old said ds bs log) =
      elim (Bool-cases (is_block_of trade b)) [
        | inl is ↦
            let bad : ⊥ =
              cc (after, ap is_blocked (stored_first b s s' bs is), ap state_is_blocked state) in
            elim bad [ ]
        | inr other ↦ kept s s' before after (stays b s s' bs other)
      ]
  unblocks s s' before after
        (resumes_trade old b entry d found was of_trade state newest result said ds bs log) =
      elim (Bool-cases (is_block_of trade b)) [
        | inl is ↦
            let same_id : b.trade_id ≡ trade = ground (arith, is, eq_iff b.trade_id trade) in
            (d, rw (sym of_trade ∙ same_id) at newest, result)
        | inr other ↦ kept s s' before after (stays b s s' bs other)
      ]

  -- A call after which a blocked trade is no longer blocked finds ALLOW as the trade's latest decision.
  pub apply-unblocks :
      (m : Mutation) (s : Register)
      → is_blocked (block_of trade s.blocks) ≡ true
      → is_blocked (block_of trade (apply env m s).blocks) ≡ false
      → IsAllowed env trade s
  apply-unblocks m s before after = unblocks s (apply env m s) before after (apply-Step env m s)
