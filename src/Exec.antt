-- ===== src/Exec.antt =====
-- The effects of a service's methods: they read and change a state and may throw. What was written
-- before a throw stays written, so the state comes back beside the error too.
pub mod Keeps
pub mod Same
pub mod Triple

pub data Result {ℓ κ} (E : Type ℓ) (A : Type κ) : Type (ℓ ⊔ κ) where
  ok : A → Result E A
  err : E → Result E A

abbrev pub Exec {ℓ} : Type ℓ → Type ℓ → Type ℓ → Type ℓ
Exec S E A = S → Result E A × S

module _ {ℓ} {S E A : Type ℓ} where
  unfoldable pub pure : A → Exec S E A
  pure a s = (ok a, s)

  -- `throw e`
  unfoldable pub throw : E → Exec S E A
  throw e s = (err e, s)

  unfoldable pub lift : Result E A → Exec S E A
  lift r s = (r, s)

  unfoldable pub gets : (S → A) → Exec S E A
  gets f s = (ok (f s), s)

  abbrev pub handle : Result E A → (E → Exec S E A) → Exec S E A
  handle (ok a) h s = (ok a, s)
  handle (err e) h s = h e s

  -- `try { m } catch (e) { h }`: the handler goes on from the state that the throw left.
  unfoldable pub catch : Exec S E A → (E → Exec S E A) → Exec S E A
  catch m h s = let (r, s') = m s in handle r h s'

unfoldable pub modify {ℓ} : {S E : Type ℓ} → (S → S) → Exec S E (Unit {ℓ})
modify f s = (ok tt, f s)

module _ {ℓ} {S E A B : Type ℓ} where
  abbrev pub continue : Result E A → (A → Exec S E B) → Exec S E B
  continue (ok a) f s = f a s
  continue (err e) f s = (err e, s)

  infixl 5 ◌>>=◌ ◌>>◌
  unfoldable pub ◌>>=◌ : Exec S E A → (A → Exec S E B) → Exec S E B
  unfolding pure throw lift gets
  ◌>>=◌ m f s = let (r, s') = m s in continue r f s'

  abbrev pub ◌>>◌ : Exec S E A → Exec S E B → Exec S E B
  m >> n = m >>= λ _. n
