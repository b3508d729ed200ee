-- ===== src/Exec/Same.antt =====
-- Methods that do the same in a state.
use agroasys_web3layer.Prelude.{Bool, true, false, ◌≡◌, refl, if◌then◌else◌}
use agroasys_web3layer.Exec.Triple.{Outcome}
use agroasys_web3layer.Exec.{Result, ok, err, Exec, continue, ◌>>=◌}

module _ {S E A B : Type 0} where
  continue-same :
      (r : Result E A) (f g : A → Exec S E B) (s : S)
      → ((a : A) (s : S) → f a s ≡ g a s)
      → continue r f s ≡ continue r g s
  continue-same (ok a) f g s same = same a s
  continue-same (err e) f g s same = refl

  pub bind-same :
      (m : Exec S E A) (f g : A → Exec S E B) (s : S)
      → ((a : A) (s : S) → f a s ≡ g a s)
      → (m >>= f) s ≡ (m >>= g) s
  unfolding ◌>>=◌
  bind-same m f g s same = continue-same (m s).0 f g (m s).1 same

  continue-same-on :
      (r : Result E A) (f g : A → Exec S E B) (Q : A → S → Type 0) (R : S → Type 0) (s : S)
      → Outcome Q R r s
      → ((a : A) (s : S) → Q a s → f a s ≡ g a s)
      → continue r f s ≡ continue r g s
  continue-same-on (ok a) f g Q R s o same = same a s o
  continue-same-on (err e) f g Q R s o same = refl

  -- The two continuations need agree only on what the method returns.
  pub bind-same-on :
      (m : Exec S E A) (f g : A → Exec S E B) (Q : A → S → Type 0) (R : S → Type 0) (s : S)
      → Outcome Q R (m s).0 (m s).1
      → ((a : A) (s : S) → Q a s → f a s ≡ g a s)
      → (m >>= f) s ≡ (m >>= g) s
  unfolding ◌>>=◌
  bind-same-on m f g Q R s o same = continue-same-on (m s).0 f g Q R (m s).1 o same

pub if-same :
    {S E A : Type 0} (b : Bool) (m n n' : Exec S E A) (s : S)
    → n s ≡ n' s
    → (if b then m else n) s ≡ (if b then m else n') s
if-same true m n n' s h = refl
if-same false m n n' s h = h

pub if-then-same :
    {S E A : Type 0} (b : Bool) (m m' n : Exec S E A) (s : S)
    → m s ≡ m' s
    → (if b then m else n) s ≡ (if b then m' else n) s
if-then-same true m m' n s h = h
if-then-same false m m' n s h = refl
