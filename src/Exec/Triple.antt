-- ===== src/Exec/Triple.antt =====
-- Pre- and postconditions of methods, with a rule for each way to build one.
use agroasys_web3layer.Prelude.{◌≡◌, refl, Bool, true, false, if◌then◌else◌}
use agroasys_web3layer.Exec.{Result, ok, err, Exec, lift, catch, handle, ◌>>=◌, continue}
use agroasys_web3layer.Exec.Keeps.{Keeps}

-- `Q` after a return, `R` after a throw.
abbrev pub Outcome {ℓ} :
    {S E A : Type ℓ} → (A → S → Type ℓ) → (S → Type ℓ) → Result E A → S → Type ℓ
Outcome Q R (ok a) s = Q a s
Outcome Q R (err e) s = R s

pub record Triple {ℓ} {S E A : Type ℓ} (P : S → Type ℓ) (m : Exec S E A) (Q : A → S → Type ℓ)
    (R : S → Type ℓ) : Type ℓ where
  pub at : (s : S) → P s → Outcome Q R (m s).0 (m s).1

module _ {ℓ} {S E A : Type ℓ} (P : S → Type ℓ) where
  Outcome-keeps : (r : Result E A) (s : S) → Outcome (λ _. P) P r s → P s
  Outcome-keeps (ok a) s h = h
  Outcome-keeps (err e) s h = h

  keeps-Outcome : (r : Result E A) (s : S) → P s → Outcome (λ _. P) P r s
  keeps-Outcome (ok a) s h = h
  keeps-Outcome (err e) s h = h

  pub Triple-Keeps : (m : Exec S E A) → Triple P m (λ _. P) P → Keeps P m
  Triple-Keeps m t = record { at = λ s p. Outcome-keeps (m s).0 (m s).1 (t.at s p) }

  pub Keeps-Triple : (m : Exec S E A) → Keeps P m → Triple P m (λ _. P) P
  Keeps-Triple m k = record { at = λ s p. keeps-Outcome (m s).0 (m s).1 (k.at s p) }

module _ {ℓ} {S E A B : Type ℓ} where
  continue-Outcome :
      (r : Result E A) (f : A → Exec S E B) (Q : A → S → Type ℓ) (T : B → S → Type ℓ)
      (R : S → Type ℓ) (s : S)
      → Outcome Q R r s
      → ((a : A) → Triple (Q a) (f a) T R)
      → Outcome T R (continue r f s).0 (continue r f s).1
  continue-Outcome (ok a) f Q T R s o tf = (tf a).at s o
  continue-Outcome (err e) f Q T R s o tf = o

  pub Triple-bind :
      {P : S → Type ℓ} (m : Exec S E A) (f : A → Exec S E B) (Q : A → S → Type ℓ)
      {T : B → S → Type ℓ} {R : S → Type ℓ}
      → Triple P m Q R
      → ((a : A) → Triple (Q a) (f a) T R)
      → Triple P (m >>= f) T R
  unfolding ◌>>=◌
  Triple-bind m f Q tm tf = record {
    at = λ s p. continue-Outcome (m s).0 f Q _ _ (m s).1 (tm.at s p) tf;
  }

module _ {ℓ} {S E A : Type ℓ} where
  lift-Outcome :
      {P R : S → Type ℓ} (r : Result E A) (s : S)
      → P s
      → ((s : S) → P s → R s)
      → Outcome (λ a s. P s × (r ≡ ok a)) R r s
  lift-Outcome (ok a) s p weaken = (p, refl)
  lift-Outcome (err e) s p weaken = weaken s p

  -- What follows may use that the lifted result is no error.
  pub Triple-lift :
      {P : S → Type ℓ} {R : S → Type ℓ} (r : Result E A)
      → ((s : S) → P s → R s)
      → Triple P (lift r) (λ a s. P s × (r ≡ ok a)) R
  unfolding lift
  Triple-lift r weaken = record { at = λ s p. lift-Outcome r s p weaken }

  pub Outcome-both :
      (Q R : S → Type ℓ) (r : Result E A) (s : S) → Q s → R s → Outcome (λ _. Q) R r s
  Outcome-both Q R (ok a) s q p = q
  Outcome-both Q R (err e) s q p = p

  pub Triple-pre :
      {P P' : S → Type ℓ} {m : Exec S E A} {Q : A → S → Type ℓ} {R : S → Type ℓ}
      → ((s : S) → P' s → P s)
      → Triple P m Q R
      → Triple P' m Q R
  Triple-pre weaken t = record { at = λ s p. t.at s (weaken s p) }

  catch-Outcome :
      {Q : A → S → Type ℓ} {R R' : S → Type ℓ} (r : Result E A) (h : E → Exec S E A) (s : S)
      → Outcome Q R' r s
      → ((e : E) → Triple R' (h e) Q R)
      → Outcome Q R (handle r h s).0 (handle r h s).1
  catch-Outcome (ok a) h s o th = o
  catch-Outcome (err e) h s o th = (th e).at s o

  -- The handler starts from what holds after a throw.
  pub Triple-catch :
      {P : S → Type ℓ} {Q : A → S → Type ℓ} {R : S → Type ℓ} (R' : S → Type ℓ) (m : Exec S E A)
      (h : E → Exec S E A)
      → Triple P m Q R'
      → ((e : E) → Triple R' (h e) Q R)
      → Triple P (catch m h) Q R
  unfolding catch
  Triple-catch {Q} {R} R' m h tm th = record {
    at = λ s p. catch-Outcome {Q = Q} {R = R} {R' = R'} (m s).0 h (m s).1 (tm.at s p) th;
  }

  Outcome-weaken :
      {Q Q' : A → S → Type ℓ} {R R' : S → Type ℓ} (r : Result E A) (s : S)
      → ((a : A) (s : S) → Q a s → Q' a s)
      → ((s : S) → R s → R' s)
      → Outcome Q R r s
      → Outcome Q' R' r s
  Outcome-weaken (ok a) s wq wr o = wq a s o
  Outcome-weaken (err e) s wq wr o = wr s o

  pub Triple-post :
      {P : S → Type ℓ} {Q Q' : A → S → Type ℓ} {R R' : S → Type ℓ} {m : Exec S E A}
      → ((a : A) (s : S) → Q a s → Q' a s)
      → ((s : S) → R s → R' s)
      → Triple P m Q R
      → Triple P m Q' R'
  Triple-post {Q} {Q'} {R} {R'} {m} wq wr t = record {
    at = λ s p. Outcome-weaken {Q = Q} {Q' = Q'} {R = R} {R' = R'} (m s).0 (m s).1 wq wr (t.at s p);
  }

  pub Triple-if :
      {P : S → Type ℓ} {Q : A → S → Type ℓ} {R : S → Type ℓ} (b : Bool) (m n : Exec S E A)
      → (b ≡ true → Triple P m Q R)
      → (b ≡ false → Triple P n Q R)
      → Triple P (if b then m else n) Q R
  Triple-if true m n tm tn = tm refl
  Triple-if false m n tm tn = tn refl

module _ {ℓ} {S E A : Type ℓ} where
  any-Outcome : (r : Result E A) (s : S) → Outcome (λ a s. Unit {ℓ}) (λ s. Unit {ℓ}) r s
  any-Outcome (ok a) s = tt
  any-Outcome (err e) s = tt

  -- Nothing is asked of the method.
  pub Triple-any : {P : S → Type ℓ} (m : Exec S E A) → Triple P m (λ a s. Unit {ℓ}) (λ s. Unit {ℓ})
  Triple-any m = record { at = λ s p. any-Outcome (m s).0 (m s).1 }
