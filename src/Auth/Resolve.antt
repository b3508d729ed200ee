-- ===== src/Auth/Resolve.antt =====
-- Which sessions auth/src/core/sessionService.ts resolves.
use agroasys_web3layer.Prelude.{
  ℕ, suc, ◌/◌, ◌<◌, String, ◌≡◌, ◌↔◌, refl, ap, inl, inr, Option, none, some, arith, Bool-cases,
  All, find, leb,
}
use agroasys_web3layer.Exec.{ok, ◌>>=◌, pure}
use agroasys_web3layer.Auth.{UserSession, Environment, Desk, tick, now_seconds}
use agroasys_web3layer.Auth.Queries.{query, has_id, find_session_by_id}
use agroasys_web3layer.Auth.Service.{unexpired, check_revoked, check_active, resolve_active}
use agroasys_web3layer.Auth.Epochs.{IsDriver, IsSafe, found_normalized}

module _ (env : Environment) where
  -- The row is there, it is not revoked, and it does not end before the moment.
  abbrev pub IsInForce : UserSession → Option UserSession → ℕ → Type 0
  IsInForce u row n = (row ≡ some u) × (u.revoked_at ≡ none) × (env.now n / 1000 < u.expires_at)

  some_is : (u v : UserSession) → some v ≡ some u → v ≡ u
  some_is u v e = cc

  unexpired_iff :
      (u v : UserSession) (s : Desk)
      → v.revoked_at ≡ none
      → ((unexpired env v s).0 ≡ ok (some u)) ↔ IsInForce u (some v) s.moment
  unfolding unexpired now_seconds tick ◌>>=◌ pure
  unexpired_iff u v s valid = elim (Bool-cases (leb v.expires_at (env.now s.moment / 1000))) [
    | inl over ↦ rw over (
      λ h. cc,
      λ (row, unrevoked, live).
          let ends : v.expires_at ≡ u.expires_at = ap (λ w. w.expires_at) (some_is u v row) in
          ground (arith, over, live, ends),
    )
    | inr live ↦ rw live (
      λ h.
          let row : some v ≡ some u = cc in
          let before : env.now s.moment / 1000 < v.expires_at = ground (arith, live) in
          (row, rw (some_is u v row) at valid, rw (some_is u v row) at before),
      λ (row, unrevoked, later). ap ok row,
    )
  ]

  check_revoked_iff :
      (u v : UserSession) (revoked : Option ℕ) (s : Desk)
      → v.revoked_at ≡ revoked
      → ((check_revoked env v revoked s).0 ≡ ok (some u)) ↔ IsInForce u (some v) s.moment
  unfolding check_revoked pure
  check_revoked_iff u v none s at = unexpired_iff u v s at
  check_revoked_iff u v (some n) s at = (
    λ h. cc,
    λ (row, unrevoked, later).
        let same : v.revoked_at ≡ u.revoked_at = ap (λ w. w.revoked_at) (some_is u v row) in cc,
  )

  check_active_iff :
      (u : UserSession) (row : Option UserSession) (s : Desk)
      → ((check_active env row s).0 ≡ ok (some u)) ↔ IsInForce u row s.moment
  unfolding check_active pure
  check_active_iff u none s = (λ h. cc, λ (row, unrevoked, later). cc)
  check_active_iff u (some v) s = check_revoked_iff u v v.revoked_at s refl

  -- With the database in reach and safe times in its rows, a session id resolves to exactly the row with
  -- that id, where it is not revoked and ends after the second in which the query's answer is checked.
  pub resolve_active_iff :
      ((n : ℕ) → env.query_fault n ≡ none)
      → IsDriver env
      → (id : String) (u : UserSession) (s : Desk) → All IsSafe s.sessions
      → ((resolve_active env id s).0 ≡ ok (some u))
        ↔ IsInForce u (find (has_id id) s.sessions) (suc s.moment)
  unfolding resolve_active find_session_by_id query ◌>>=◌
  resolve_active_iff up driver id u s safe = rw (up s.moment) (
      rw (found_normalized env driver id s.sessions safe)
        (check_active_iff u (find (has_id id) s.sessions) (record s { moment = suc s.moment })))
