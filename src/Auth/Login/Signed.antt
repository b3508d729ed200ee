-- ===== src/Auth/Login/Signed.antt =====
-- Whose logins auth/src/api/controller.ts accepts.
use mathlib.Core.Path.{subst}
use agroasys_web3layer.Prelude.{
  ℕ, ◌<◌, String, ◌≡◌, refl, sym, inl, inr, Option, none, some, arith, Bool-cases, Option-cases,
  str_eq, eq_iff, leb,
}
use agroasys_web3layer.Exec.{Result, ok, pure, modify, ◌>>=◌}
use agroasys_web3layer.Auth.{UserRole, Challenge, Environment, Desk}
use agroasys_web3layer.Auth.Texts.{to_lower_case}
use agroasys_web3layer.Auth.Stores.{entry, delete_challenge, usable, get_challenge_nonce}
use agroasys_web3layer.Auth.Controller.{
  Reply, unauthorized, LoginBody, checked_body, given, build_challenge_message, signature_error,
  recovery_error, consume, with_nonce, login_checked, login_fields, login,
}
use agroasys_web3layer.Auth.Login.{IsIssued, ok_is}

module _ (env : Environment) (max_ttl : ℕ) where
  -- The wallet signed the challenge that is stored for it and is not over.
  abbrev pub IsSigned : String → String → Desk → Type 0
  IsSigned wallet signature s =
      (c : Challenge) × (recovered : String) × (entry (to_lower_case wallet) s.challenges ≡ some c)
      × (env.now s.moment < c.expires_at)
      × (env.verify_message (build_challenge_message wallet c.nonce) signature ≡ some recovered)
      × (to_lower_case recovered ≡ wallet)

  refusal :
      {A : Type 0} (e : String) (reply : Reply)
      → ◌≡◌ {A = Result String Reply} (ok (unauthorized e)) (ok reply)
      → IsIssued reply
      → A
  refusal e reply h i =
      elim (subst (λ r. IsIssued r) (sym (ok_is env max_ttl (unauthorized e) reply h)) i) [ ]

  signed :
      (wallet signature : String) (role : UserRole) (body : LoginBody) (nonce : String) (s : Desk)
      (reply : Reply)
      → (with_nonce env max_ttl wallet signature role body (some nonce) s).0 ≡ ok reply
      → IsIssued reply
      → (recovered : String) × (env.verify_message (build_challenge_message wallet nonce) signature
          ≡ some recovered)
        × (to_lower_case recovered ≡ wallet)
  unfolding with_nonce signature_error recovery_error consume pure
  signed wallet signature role body nonce s reply done i =
      elim (Option-cases (env.verify_message (build_challenge_message wallet nonce) signature)) [
        | inl malformed ↦ refusal _ reply (rw (signature_error, malformed) at done) i
        | inr (recovered, e) ↦ elim (Bool-cases (str_eq (to_lower_case recovered) wallet)) [
          | inl same ↦ (recovered, e, ground (arith, same, eq_iff (to_lower_case recovered) wallet))
          | inr other ↦ refusal _ reply (rw (signature_error, e, recovery_error, other) at done) i
        ]
      ]

  nonce_signed :
      (wallet signature : String) (role : UserRole) (body : LoginBody) (nonce : Option String)
      (s : Desk) (reply : Reply)
      → (with_nonce env max_ttl wallet signature role body nonce s).0 ≡ ok reply
      → IsIssued reply
      → (text : String) × (nonce ≡ some text)
        × (recovered : String) × (env.verify_message (build_challenge_message wallet text) signature
            ≡ some recovered)
        × (to_lower_case recovered ≡ wallet)
  unfolding with_nonce pure
  nonce_signed wallet signature role body none s reply done i = refusal _ reply done i
  nonce_signed wallet signature role body (some text) s reply done i =
      let (recovered, r, same) = signed wallet signature role body text s reply done i in
      (text, refl, recovered, r, same)

  given_is : (n text : String) → given (some n) ≡ some text → n ≡ text
  given_is String.[] text h = cc
  given_is (String.◌∷◌ c n) text h = cc

  -- A login issues a session only where the signature over the wallet's stored challenge, which is not
  -- over, recovers the wallet.
  pub login-IsSigned :
      (address signature : String) (role : UserRole) (body : LoginBody) (s : Desk) (reply : Reply)
      → checked_body body ≡ ok (address, signature, role)
      → (login env max_ttl body s).0 ≡ ok reply
      → IsIssued reply
      → IsSigned (to_lower_case address) signature s
  unfolding login login_fields login_checked get_challenge_nonce usable delete_challenge modify
      ◌>>=◌ pure
  login-IsSigned address signature role body s reply fields done i =
      let wallet = to_lower_case address in
      elim (Option-cases (entry (to_lower_case wallet) s.challenges)) [
        | inl missing ↦ refusal _ reply (rw (fields, missing) at done) i
        | inr (c, stored) ↦ elim (Bool-cases (leb c.expires_at (env.now s.moment))) [
          | inl over ↦ refusal _ reply (rw (fields, stored, over) at done) i
          | inr live ↦
              let (text, e, recovered, r, same) =
                nonce_signed wallet signature role body (given (some c.nonce)) _ reply
                  (rw (fields, stored, live) at done) i in
              (
                c,
                recovered,
                stored,
                ground (arith, live),
                subst
                    (λ n.
                      env.verify_message (build_challenge_message wallet n) signature
                      ≡ some recovered)
                    (sym (given_is c.nonce text e)) r,
                same,
              )
        ]
      ]
