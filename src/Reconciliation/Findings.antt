-- ===== src/Reconciliation/Findings.antt =====
-- When each comparison of reconciliation/src/core/classifier.ts finds no drift.
use agroasys_web3layer.Prelude.{
  ℕ, String, ◌≡◌, ap, ◌↔◌, ◌⊎◌, refl, inl, inr, Bool, true, false, Option, none, some, List, [],
  ◌∷◌, ◌++◌, str_eq, eq_iff, ==_iff, if◌then◌else◌, ◌==◌,
}
use agroasys_web3layer.Exec.{ok}
use agroasys_web3layer.Auth.Texts.{to_lower_case}
use agroasys_web3layer.Reconciliation.{Date, IndexedTradeRecord, Trade, DriftFinding}
use agroasys_web3layer.Reconciliation.Address.{same_text}
use agroasys_web3layer.Reconciliation.Classifier.{
  status_label, compare_amount, compare_amounts, invalid_address, participants, compare_status,
  compare_hash, iso, with_arrival, arrival_finding,
}

pub append_nil {ℓ} : {A : Type ℓ} (xs ys : List A) → (xs ++ ys ≡ []) ↔ ((xs ≡ []) × (ys ≡ []))
append_nil [] ys = (λ e. (refl, e), λ (e, f). f)
append_nil (x ∷ xs) ys = (λ e. elim (let bad : ⊥ = cc in bad) [ ], λ (e, f). cc)

-- What is pushed unless a test holds.
pub unless_nil {ℓ} :
    {A : Type ℓ} (b : Bool) (x : A) → ((if b then [] else x ∷ []) ≡ []) ↔ (b ≡ true)
unless_nil true x = (λ e. refl, λ e. refl)
unless_nil false x = (λ e. cc, λ e. cc)

-- Two addresses that are valid and normalize to the same.
pub SameAddress : Option String → Option String → Type 0
SameAddress a b = (n : String) × (a ≡ some n) × (b ≡ some n)

-- Two dates that are both absent, or both valid and the same.
pub SameArrival : Option Date → Option Date → Type 0
SameArrival a b =
    ((a ≡ none) × (b ≡ none)) ⊎ ((t : String) × (a ≡ some (some t)) × (b ≡ some (some t)))

pub addresses_iff :
    (a b : Option String) (f g h : DriftFinding)
    → ((invalid_address a f ≡ []) × (invalid_address b g ≡ []) × (participants a b h ≡ []))
      ↔ SameAddress a b
unfolding SameAddress
addresses_iff none b f g h = (λ (e, _, _). cc, λ (n, e, _). cc)
addresses_iff (some x) none f g h = (λ (_, e, _). cc, λ (n, _, e). cc)
addresses_iff (some x) (some y) f g h = (
  λ (_, _, e). (
    x,
    refl,
    let same : y ≡ x = (eq_iff y x).0 ((unless_nil (str_eq y x) h).0 e) in ap some same,
  ),
  λ (n, e, k).
      let same : y ≡ x = cc in (refl, refl, (unless_nil (str_eq y x) h).1 ((eq_iff y x).1 same)),
)

-- The dates' texts are there and the same.
pub texts_iff :
    (onchain indexed : Option String) → (same_text onchain indexed ≡ true) ↔ (onchain ≡ indexed)
texts_iff none none = (λ e. refl, λ e. refl)
texts_iff none (some b) = (λ e. cc, λ e. cc)
texts_iff (some a) none = (λ e. cc, λ e. cc)
texts_iff (some a) (some b) =
    (λ e. ap some ((eq_iff a b).0 e), λ e. (eq_iff a b).1 (let same : a ≡ b = cc in same))

pushed_iff :
    (id : String) (fs : List DriftFinding) (onchain indexed : Option String)
    → (with_arrival id fs (ok onchain) (ok indexed) ≡ ok []) ↔ ((fs ≡ []) × (onchain ≡ indexed))
unfolding with_arrival
pushed_iff id fs onchain indexed =
    let pushed = unless_nil (same_text onchain indexed) (arrival_finding id onchain indexed) in
    let both = append_nil fs _ in
    (
      λ e.
          let (none_before, none_pushed) = both.0 (let whole : fs ++ _ ≡ [] = cc in whole) in
          (none_before, (texts_iff onchain indexed).0 (pushed.0 none_pushed)),
      λ (e, same). ap ok (both.1 (e, pushed.1 ((texts_iff onchain indexed).1 same))),
    )

pub arrival_iff :
    (id : String) (fs : List DriftFinding) (onchain indexed : Option Date)
    → (with_arrival id fs (iso onchain) (iso indexed) ≡ ok [])
      ↔ ((fs ≡ []) × SameArrival onchain indexed)
unfolding with_arrival SameArrival
arrival_iff id fs none none = (
  λ e. (((pushed_iff id fs none none).0 e).0, inl (refl, refl)),
  λ (e, _). (pushed_iff id fs none none).1 (e, refl),
)
arrival_iff id fs none (some none) =
    (λ e. cc, λ (_, s). elim s [ inl (a, b) ↦ cc | inr (v, a, b) ↦ cc ])
arrival_iff id fs none (some (some t)) = (
  λ e. let other = ((pushed_iff id fs none (some t)).0 e).1 in cc,
  λ (_, s). elim s [ inl (a, b) ↦ cc | inr (v, a, b) ↦ cc ],
)
arrival_iff id fs (some none) indexed =
    (λ e. cc, λ (_, s). elim s [ inl (a, b) ↦ cc | inr (v, a, b) ↦ cc ])
arrival_iff id fs (some (some t)) none = (
  λ e. let other = ((pushed_iff id fs (some t) none).0 e).1 in cc,
  λ (_, s). elim s [ inl (a, b) ↦ cc | inr (v, a, b) ↦ cc ],
)
arrival_iff id fs (some (some t)) (some none) =
    (λ e. cc, λ (_, s). elim s [ inl (a, b) ↦ cc | inr (v, a, b) ↦ cc ])
arrival_iff id fs (some (some t)) (some (some u)) = (
  λ e.
      let (empty, same) = (pushed_iff id fs (some t) (some u)).0 e in
      (empty, inr (u, ap some same, refl)),
  λ (e, s).
      (pushed_iff id fs (some t) (some u)).1 (e, elim s [ inl (a, b) ↦ cc | inr (v, a, b) ↦ cc ]),
)

amount_iff :
    (id field : String) (indexed onchain : ℕ)
    → (compare_amount id field indexed onchain ≡ []) ↔ (onchain ≡ indexed)
unfolding compare_amount
amount_iff id field indexed onchain =
    let pushed = unless_nil (onchain == indexed) _ in
    (λ e. (==_iff onchain indexed).0 (pushed.0 e), λ e. pushed.1 ((==_iff onchain indexed).1 e))

pub record SameAmounts (indexed : IndexedTradeRecord) (onchain : Trade) : Type 0 where
  pub total : onchain.total_amount_locked ≡ indexed.total_amount_locked
  pub logistics : onchain.logistics_amount ≡ indexed.logistics_amount
  pub fees : onchain.platform_fees_amount ≡ indexed.platform_fees_amount
  pub first : onchain.supplier_first_tranche ≡ indexed.supplier_first_tranche
  pub second : onchain.supplier_second_tranche ≡ indexed.supplier_second_tranche

module _ {ℓ} {A : Type ℓ} {xs ys : List A} {P Q : Type 0} where
  -- Two parts of the findings.
  pub both_iff : (xs ≡ []) ↔ P → (ys ≡ []) ↔ Q → (xs ++ ys ≡ []) ↔ (P × Q)
  both_iff left right = (
    λ e. let (a, b) = (append_nil xs ys).0 e in (left.0 a, right.0 b),
    λ (p, q). (append_nil xs ys).1 (left.1 p, right.1 q),
  )

pub amounts_iff :
    (indexed : IndexedTradeRecord) (onchain : Trade)
    → (compare_amounts indexed onchain ≡ []) ↔ SameAmounts indexed onchain
unfolding compare_amounts
amounts_iff indexed onchain =
    let id = indexed.trade_id in
    let parts = both_iff (amount_iff id _ indexed.total_amount_locked onchain.total_amount_locked) (
      both_iff (amount_iff id _ indexed.logistics_amount onchain.logistics_amount) (
        both_iff (amount_iff id _ indexed.platform_fees_amount onchain.platform_fees_amount) (
          both_iff (amount_iff id _ indexed.supplier_first_tranche onchain.supplier_first_tranche)
            (amount_iff id _ indexed.supplier_second_tranche onchain.supplier_second_tranche)))) in
    (
      λ e.
          let (a, (b, (c, (d, f)))) = parts.0 e in
          record { total = a; logistics = b; fees = c; first = d; second = f },
      λ s. parts.1 (s.total, (s.logistics, (s.fees, (s.first, s.second)))),
    )

-- What is pushed unless two texts are the same.
text_iff {ℓ} :
    {A : Type ℓ} (a b : String) (x : A) → ((if str_eq a b then [] else x ∷ []) ≡ []) ↔ (a ≡ b)
text_iff a b x =
    let pushed = unless_nil (str_eq a b) x in
    (λ e. (eq_iff a b).0 (pushed.0 e), λ e. pushed.1 ((eq_iff a b).1 e))

pub status_iff :
    (indexed : IndexedTradeRecord) (onchain : Trade)
    → (compare_status indexed onchain ≡ []) ↔ (status_label onchain.status ≡ indexed.status)
unfolding compare_status
status_iff indexed onchain = text_iff (status_label onchain.status) indexed.status _

pub hash_iff :
    (indexed : IndexedTradeRecord) (onchain : Trade)
    → (compare_hash indexed onchain ≡ [])
      ↔ (to_lower_case onchain.ricardian_hash ≡ to_lower_case indexed.ricardian_hash)
unfolding compare_hash
hash_iff indexed onchain =
    text_iff (to_lower_case onchain.ricardian_hash) (to_lower_case indexed.ricardian_hash) _
