-- ===== src/Exec/Keeps.antt =====
-- Invariants of methods: one rule for each way to build a method, applied by `search keeps_rules`.
use agroasys_web3layer.Prelude.{◌≡◌, Bool, true, false, if◌then◌else◌}
use agroasys_web3layer.Exec.{
  Result, ok, err, Exec, pure, throw, lift, gets, modify, catch, handle, continue, ◌>>=◌,
}

-- The method keeps `P`, whether it returns or throws.
pub record Keeps {ℓ} {S E A : Type ℓ} (P : S → Type ℓ) (m : Exec S E A) : Type ℓ where
  pub at : (s : S) → P s → P (m s).1

module _ {ℓ} {S E A : Type ℓ} {P : S → Type ℓ} where
  pub Keeps-pure : (a : A) → Keeps P (pure {E = E} a)
  unfolding pure
  Keeps-pure a = record { at = λ s h. h }

  pub Keeps-throw : (e : E) → Keeps P (throw {A = A} e)
  unfolding throw
  Keeps-throw e = record { at = λ s h. h }

  pub Keeps-lift : (r : Result E A) → Keeps P (lift r)
  unfolding lift
  Keeps-lift r = record { at = λ s h. h }

  pub Keeps-gets : (f : S → A) → Keeps P (gets {E = E} f)
  unfolding gets
  Keeps-gets f = record { at = λ s h. h }

  pub Keeps-if :
      (b : Bool) (m n : Exec S E A) → Keeps P m → Keeps P n → Keeps P (if b then m else n)
  Keeps-if true m n km kn = km
  Keeps-if false m n km kn = kn

  pub Keeps-then :
      (b : Bool) (m n : Exec S E A) → b ≡ true → Keeps P m → Keeps P (if b then m else n)
  Keeps-then b m n h km = rw h km

  pub Keeps-else :
      (b : Bool) (m n : Exec S E A) → b ≡ false → Keeps P n → Keeps P (if b then m else n)
  Keeps-else b m n h kn = rw h kn

  handle-Keeps :
      (r : Result E A) (h : E → Exec S E A)
      → ((e : E) → Keeps P (h e))
      → (s : S) → P s
      → P (handle r h s).1
  handle-Keeps (ok a) h kh s p = p
  handle-Keeps (err e) h kh s p = (kh e).at s p

  pub Keeps-catch :
      (m : Exec S E A) (h : E → Exec S E A)
      → Keeps P m
      → ((e : E) → Keeps P (h e))
      → Keeps P (catch m h)
  unfolding catch
  Keeps-catch m h km kh = record {
    at = λ s p. let (r, s') = m s in handle-Keeps r h kh s' (km.at s p);
  }

pub Keeps-modify {ℓ} :
    {S E : Type ℓ} {P : S → Type ℓ} (f : S → S)
    → ((s : S) → P s → P (f s))
    → Keeps P (modify {E = E} f)
unfolding modify
Keeps-modify f k = record { at = k }

module _ {ℓ} {S E A B : Type ℓ} {P : S → Type ℓ} where
  continue-Keeps :
      (r : Result E A) (f : A → Exec S E B)
      → ((a : A) → Keeps P (f a))
      → (s : S) → P s
      → P (continue r f s).1
  continue-Keeps (ok a) f kf s p = (kf a).at s p
  continue-Keeps (err e) f kf s p = p

  pub Keeps-bind :
      (m : Exec S E A) (f : A → Exec S E B)
      → Keeps P m
      → ((a : A) → Keeps P (f a))
      → Keeps P (m >>= f)
  unfolding ◌>>=◌
  Keeps-bind m f km kf = record {
    at = λ s p. let (r, s') = m s in continue-Keeps r f kf s' (km.at s p);
  }

pub ruleset keeps_rules = (
  Keeps-pure, Keeps-throw, Keeps-lift, Keeps-gets, Keeps-if, Keeps-catch, Keeps-modify, Keeps-bind,
)
