-- ===== src/Oracle/Worker/Rate.antt =====
-- How often oracle/src/worker/confirmation-worker.ts asks the chain about one trade.
use agroasys_web3layer.Prelude.{
  ℕ, ◌+◌, ◌≤◌, String, Bool, true, false, ◌≡◌, refl, Option, none, some, List, [], ◌∷◌, str_eq,
  arith, ◌⊎◌, if◌then◌else◌, Bool-cases, inl, inr, eq_iff, ap,
}
use agroasys_web3layer.Oracle.Worker.{
  Checks, last_check, should_run_on_chain_check, checked_recently, is_younger,
  on_chain_fallback_min_interval_ms, on_chain_fallback_threshold_ms,
}

-- The times at which a series of checks, each of a trade, at a time and for a submission, asks the
-- chain about the trade `k`.
abbrev pub asked : String → List (String × ℕ × ℕ) → Checks → List ℕ
asked k [] checks = []
asked k ((trade_id, now, since) ∷ calls) checks =
    let (run, after) = should_run_on_chain_check trade_id now since checks in
    let rest = asked k calls after in
    elim run [ true ↦ if str_eq trade_id k then now ∷ rest else rest | false ↦ rest ]

-- Each time is at least the interval after the one before, `last` standing before the first.
abbrev pub IsSpaced : Option ℕ → List ℕ → Type 0
IsSpaced last [] = Unit {0}
IsSpaced none (at ∷ times) = IsSpaced (some at) times
IsSpaced (some last) (at ∷ times) =
    (last + on_chain_fallback_min_interval_ms ≤ at) × IsSpaced (some at) times

IsSpaced-cons :
    (last : Option ℕ) (now : ℕ) (times : List ℕ)
    → checked_recently last now ≡ false
    → IsSpaced (some now) times
    → IsSpaced last (now ∷ times)
IsSpaced-cons none now times due spaced = spaced
IsSpaced-cons (some last) now times due spaced = (ground arith, spaced)

due_for :
    (k trade_id : String) (now : ℕ) (checks : Checks)
    → str_eq trade_id k ≡ true
    → checked_recently (last_check trade_id checks) now ≡ false
    → checked_recently (last_check k checks) now ≡ false
due_for k trade_id now checks hit due =
    let same : trade_id ≡ k = (eq_iff trade_id k).0 hit in rw⁻¹ same due

-- A check is due and noted, or it changes nothing.
decision :
    (trade_id : String) (now since : ℕ) (checks : Checks)
    → (should_run_on_chain_check trade_id now since checks ≡ (false, checks))
      ⊎ ((checked_recently (last_check trade_id checks) now ≡ false)
          × (should_run_on_chain_check trade_id now since checks
              ≡ (true, (trade_id, now) ∷ checks)))
unfolding should_run_on_chain_check
decision trade_id now since checks =
    elim (Bool-cases (is_younger now since on_chain_fallback_threshold_ms)) [
      | inl young ↦ inl (rw young refl)
      | inr old ↦ elim (Bool-cases (checked_recently (last_check trade_id checks) now)) [
        | inl recent ↦ inl (rw (old, recent) refl)
        | inr due ↦ inr (due, rw (old, due) refl)
      ]
    ]

-- In every series of checks, two on-chain checks of one trade that follow on each other lie at least
-- five minutes apart, the first of them from the last one noted.
pub asked-IsSpaced :
    (k : String) (calls : List (String × ℕ × ℕ)) (checks : Checks)
    → IsSpaced (last_check k checks) (asked k calls checks)
asked-IsSpaced k [] checks = tt
asked-IsSpaced k ((trade_id, now, since) ∷ calls) checks =
    let later = asked-IsSpaced k calls ((trade_id, now) ∷ checks) in
    elim (decision trade_id now since checks) [
      | inl kept ↦
          rw (asked, kept, ap (λ (p : Bool × Checks). p.1) kept) (asked-IsSpaced k calls checks)
      | inr (due, noted) ↦ elim (Bool-cases (str_eq trade_id k)) [
        | inl hit ↦
            rw (asked, noted, ap (λ (p : Bool × Checks). p.1) noted, hit)
              (IsSpaced-cons _ now _ (due_for k trade_id now checks hit due) (rw hit at later))
        | inr miss ↦
            rw (asked, noted, ap (λ (p : Bool × Checks). p.1) noted, miss) (rw miss at later)
      ]
    ]
