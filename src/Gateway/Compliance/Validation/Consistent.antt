-- ===== src/Gateway/Compliance/Validation/Consistent.antt =====
-- What the validated decisions of gateway/src/core/complianceService.ts have in common.
use mathlib.Core.Path.{subst}
use agroasys_web3layer.Prelude.{
  ℕ, ◌<◌, String, Bool, true, false, ◌&&◌, ◌≡◌, ◌≢◌, refl, Option, none, some, Bool-cases, inl, inr,
  arith, leb, str_eq, eq_iff,
}
use agroasys_web3layer.Exec.{Result, ok, err}
use agroasys_web3layer.Gateway.{Failure}
use agroasys_web3layer.Gateway.Compliance.{ComplianceDecisionResult, allow, deny, Environment}
use agroasys_web3layer.Gateway.Compliance.Service.{DecisionBody, override_active}
use agroasys_web3layer.Gateway.Compliance.Validation.{
  RawDecision, then_check, requires_deny, check_window, check_no_window, check_override,
  validate_compliance_decision_create_request,
}

-- A decision with one of the codes of a failed check is DENY; one that rests on an override is ALLOW and has
-- a window that ends later; and no other has a window.
abbrev pub IsConsistent : ℕ → String → ComplianceDecisionResult → Option ℕ → Type 0
IsConsistent now code result window =
    (requires_deny code ≡ true → result ≡ deny)
    × (code ≡ override_active
        → (result ≡ allow) × ((ends : ℕ) × (window ≡ some ends) × (now < ends)))
    × (code ≢ override_active → window ≡ none)

check_window-future :
    (now : ℕ) (window : Option ℕ)
    → check_window now window ≡ ok tt
    → (ends : ℕ) × (window ≡ some ends) × (now < ends)
check_window-future now none h = let bad : ⊥ = cc h in elim bad [ ]
check_window-future now (some ends) h = elim (Bool-cases (leb ends now)) [
  | inl over ↦ let bad : ⊥ = (let held = rw over at h in cc held) in elim bad [ ]
  | inr later ↦ (ends, refl, ground (arith, later))
]

check_no_window-none : (window : Option ℕ) → check_no_window window ≡ ok tt → window ≡ none
check_no_window-none none h = refl
check_no_window-none (some ends) h = cc h

and_false : (b : Bool) → b && false ≡ false
and_false true = refl
and_false false = refl

check_override-IsConsistent :
    (now : ℕ) (code : String) (result : ComplianceDecisionResult) (window : Option ℕ)
    → check_override now code result window ≡ ok tt
    → IsConsistent now code result window
unfolding check_override
check_override-IsConsistent now code allow window h = elim (Bool-cases (requires_deny code)) [
  | inl failed ↦ let bad : ⊥ = (let held = rw failed at h in cc held) in elim bad [ ]
  | inr fine ↦ elim (Bool-cases (str_eq code override_active)) [
    | inl is ↦ (
      λ failed. cc (failed, fine),
      λ same. (refl, check_window-future now window (rw (fine, is) at h)),
      λ other. elim (other (ground (arith, is, eq_iff code override_active))) [ ],
    )
    | inr differs ↦ (
      λ failed. cc (failed, fine),
      λ same.
          let bad : ⊥ = ground (arith, differs, same, eq_iff code override_active) in elim bad [ ],
      λ other. check_no_window-none window (rw (fine, differs) at h),
    )
  ]
]
check_override-IsConsistent now code deny window h =
    elim (Bool-cases (str_eq code override_active)) [
      | inl is ↦
          let held = rw (and_false (requires_deny code), is) at h in
          let bad : ⊥ = cc held in elim bad [ ]
      | inr differs ↦ (
        λ failed. refl,
        λ same.
            let bad : ⊥ = ground (arith, differs, same, eq_iff code override_active) in
            elim bad [ ],
        λ other. check_no_window-none window (rw (and_false (requires_deny code), differs) at h),
      )
    ]

abbrev IsOk {ℓ} : {A : Type ℓ} → (A → Type 0) → Result Failure A → Type 0
IsOk P (ok a) = P a
IsOk P (err e) = Unit

-- The result, where there is one, has the property.
pub record AllOk (A : Type 0) (P : A → Type 0) (r : Result Failure A) : Type 0 where
  pub at : IsOk P r

module _ {B : Type 0} (P : B → Type 0) where
  checked :
      {A : Type 0} (r : Result Failure A) (f : A → Result Failure B)
      → ((a : A) → r ≡ ok a → AllOk B P (f a))
      → IsOk P (then_check r f)
  unfolding then_check
  checked (ok a) f h = (h a refl).at
  checked (err e) f h = tt

  check-AllOk :
      {A : Type 0} (r : Result Failure A) (f : A → Result Failure B)
      → ((a : A) → r ≡ ok a → AllOk B P (f a))
      → AllOk B P (then_check r f)
  check-AllOk r f h = record { at = checked r f h }

  ok_is : (a b : B) → ◌≡◌ {A = Result Failure B} (ok a) (ok b) → a ≡ b
  ok_is a b h = cc

  returned : (r : Result Failure B) (b : B) → r ≡ ok b → IsOk P r → P b
  returned (ok a) b h p = subst P (ok_is a b h) p
  returned (err e) b h p = let bad : ⊥ = cc h in elim bad [ ]

abbrev BodyIsConsistent : ℕ → DecisionBody → Type 0
BodyIsConsistent now body =
    IsConsistent now body.reason_code body.result body.override_window_ends_at

validate-AllOk :
    (env : Environment) (now : ℕ) (raw : RawDecision)
    → AllOk DecisionBody
        (BodyIsConsistent now)
        (validate_compliance_decision_create_request env now raw)
unfolding validate_compliance_decision_create_request
validate-AllOk env now raw = check-AllOk (BodyIsConsistent now) _ _ (λ result _.
    check-AllOk (BodyIsConsistent now) _ _ (λ code _.
      check-AllOk (BodyIsConsistent now) _ _ (λ window _.
        check-AllOk (BodyIsConsistent now) (check_override now code result window) _ (λ u fine.
          check-AllOk (BodyIsConsistent now) _ _ (λ trade_id _.
            check-AllOk (BodyIsConsistent now) _ _ (λ kind _.
              check-AllOk (BodyIsConsistent now) _ _ (λ provider _.
                check-AllOk (BodyIsConsistent now) _ _ (λ provider_ref _.
                  check-AllOk (BodyIsConsistent now) _ _ (λ subject_id _.
                    check-AllOk (BodyIsConsistent now) _ _ (λ subject_type _.
                      check-AllOk (BodyIsConsistent now) _ _ (λ risk_level _.
                        check-AllOk (BodyIsConsistent now) _ _ (λ correlation_id _.
                          check-AllOk (BodyIsConsistent now) _ _ (λ audit _. record {
                            at = check_override-IsConsistent now code result window fine;
                          })))))))))))))

-- A decision that passes the validation and has the code of a failed check is DENY; one that rests on an
-- override is ALLOW, with a window that ends after the clock's reading; and no other has a window.
pub validate-IsConsistent :
    (env : Environment) (now : ℕ) (raw : RawDecision) (body : DecisionBody)
    → validate_compliance_decision_create_request env now raw ≡ ok body
    → IsConsistent now body.reason_code body.result body.override_window_ends_at
validate-IsConsistent env now raw body valid =
    returned (BodyIsConsistent now) (validate_compliance_decision_create_request env now raw) body
      valid (validate-AllOk env now raw).at
