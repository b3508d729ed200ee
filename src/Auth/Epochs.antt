-- ===== src/Auth/Epochs.antt =====
-- The times of a session's row, read back as auth/src/database/queries.ts reads them.
use agroasys_web3layer.Prelude.{
  ℕ, [], ◌∷◌, List, All, find, Bool-cases, ◌≤◌, ◌<◌, String, true, false, ◌≡◌, refl, ◌⊎◌, inl, inr,
  Option, none, some, arith, decimal, decimal-Reads,
}
use agroasys_web3layer.Exec.{ok, err}
use agroasys_web3layer.Auth.{UserSession, number, text, Environment}
use agroasys_web3layer.Auth.Queries.{
  parse_session_epoch, normalize_session_row, row_of, normalized, has_id, invalid_timestamp,
  nullable, parse_nullable, is_safe_integer,
}

-- A time that the database stores is read back, whether the driver hands it over as a number or as its
-- digits, where it is a safe integer, and refused where it is not.
pub parse_session_epoch-roundtrip :
    (n : ℕ) (field : String)
    → (n ≤ 9007199254740991
        → (parse_session_epoch (number n) field ≡ ok n)
          × (parse_session_epoch (text (decimal n)) field ≡ ok n))
      × (9007199254740991 < n
          → ((e : String) × (parse_session_epoch (number n) field ≡ err e))
            × ((e : String) × (parse_session_epoch (text (decimal n)) field ≡ err e)))
unfolding parse_session_epoch
parse_session_epoch-roundtrip n field =
    let (filled, digits, value) = decimal-Reads n in
    (
      λ safe.
          let yes : is_safe_integer n ≡ true = ground (arith, safe) in
          (rw yes refl, rw (filled, digits, value, yes) refl),
      λ large.
          let no : is_safe_integer n ≡ false = ground (arith, large) in
          (
            (invalid_timestamp field, rw no refl),
            (invalid_timestamp field, rw (filled, digits, value, no) refl),
          ),
    )

-- What node-postgres documents of a BIGINT: its digits, or the number where the client says so.
abbrev pub IsDriver : Environment → Type 0
IsDriver env = (n : ℕ) → (env.from_bigint n ≡ number n) ⊎ (env.from_bigint n ≡ text (decimal n))

abbrev IsSafeOption : Option ℕ → Type 0
IsSafeOption none = Unit
IsSafeOption (some n) = n ≤ 9007199254740991

-- The times of the row are safe integers.
abbrev pub IsSafe : UserSession → Type 0
IsSafe s =
    (s.issued_at ≤ 9007199254740991) × (s.expires_at ≤ 9007199254740991) × IsSafeOption s.revoked_at

module _ (env : Environment) (driver : IsDriver env) where
  parsed :
      (n : ℕ) (field : String)
      → n ≤ 9007199254740991
      → parse_session_epoch (env.from_bigint n) field ≡ ok n
  parsed n field safe =
      let (as_number, as_text) = (parse_session_epoch-roundtrip n field).0 safe in
      elim (driver n) [ inl e ↦ rw e as_number | inr e ↦ rw e as_text ]

  nullable_parsed :
      (revoked : Option ℕ)
      → IsSafeOption revoked
      → parse_nullable (nullable env revoked) ≡ ok revoked
  nullable_parsed none safe = refl
  nullable_parsed (some n) safe = rw (parsed n "revokedAt" safe) refl

  row_normalized : (s : UserSession) → IsSafe s → normalize_session_row (row_of env s) ≡ ok s
  unfolding normalize_session_row parse_session_epoch
  row_normalized s (issued, expires, revoked) = rw (parsed s.issued_at "issuedAt" issued) (
      rw (parsed s.expires_at "expiresAt" expires) (rw (nullable_parsed s.revoked_at revoked) refl))

  -- A row with safe times is found as it is stored.
  pub found_normalized :
      (id : String) (rows : List UserSession)
      → All IsSafe rows
      → normalized env (find (has_id id) rows) ≡ ok (find (has_id id) rows)
  unfolding normalize_session_row parse_session_epoch
  found_normalized id [] safe = refl
  found_normalized id (s ∷ rows) (here, rest) = elim (Bool-cases (has_id id s)) [
    | inl is ↦ rw (is, normalized, find) (rw (row_normalized s here) refl)
    | inr other ↦ rw (other, normalized, find) (found_normalized id rows rest)
  ]
