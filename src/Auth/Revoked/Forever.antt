-- ===== src/Auth/Revoked/Forever.antt =====
-- Sessions of auth/src that are over for good.
use agroasys_web3layer.Prelude.{
  ℕ, suc, ◌≤◌, String, ◌≡◌, ◌≢◌, refl, inl, inr, Option, none, some, List, [], ◌∷◌, arith,
  Bool-cases, All, find, eq_iff,
}
use agroasys_web3layer.Exec.{Result, ok, err, pure, ◌>>=◌, continue, throw}
use agroasys_web3layer.Exec.Triple.{Outcome, Triple-if, Triple, Triple-bind}
use agroasys_web3layer.Auth.{
  UserProfile, UserSession, SessionIssueResult, Environment, Desk, Effect, now_seconds,
}
use agroasys_web3layer.Auth.Queries.{
  and_then, session_of, parse_session_epoch, normalize_session_row, normalized, has_id, query,
  unless_down, revoking, find_session_by_id, update_revoked, revoke_session, find_profile_by_id,
  SessionRow, row_of, nullable,
}
use agroasys_web3layer.Auth.Stores.{issue}
use agroasys_web3layer.Auth.Service.{
  check_active, check_revoked, resolve_active, exchange, refresh_existing, refresh_service,
  or_default,
}
use agroasys_web3layer.Auth.Controller.{Action, run}
use agroasys_web3layer.Auth.Revoked.{IsRevokedRow, revoke-All}
use agroasys_web3layer.Auth.Revoked.Requests.{run-keeps}

-- What a lookup answers is no session that is in force.
abbrev IsOver : Result String (Option UserSession) → Type 0
IsOver (err e) = Unit
IsOver (ok none) = Unit
IsOver (ok (some u)) = (n : ℕ) × (u.revoked_at ≡ some n)

parsed-IsOver :
    (row : SessionRow) (issued expires revoked : Result String ℕ)
    → IsOver (
        and_then
          (and_then issued (λ i.
            and_then expires (λ x.
              and_then (and_then revoked (λ n. ok (some n))) (λ r. ok (session_of row i x r)))))
          (λ u. ok (some u)))
parsed-IsOver row (err e) expires revoked = tt
parsed-IsOver row (ok i) (err e) revoked = tt
parsed-IsOver row (ok i) (ok x) (err e) = tt
parsed-IsOver row (ok i) (ok x) (ok n) = (n, refl)

module _ (env : Environment) (id : String) where
  row-IsOver : (u : UserSession) (n : ℕ) → u.revoked_at ≡ some n → IsOver (normalized env (some u))
  unfolding normalize_session_row
  row-IsOver u n at =
      rw (at, nullable)
        (parsed-IsOver (row_of env u) (parse_session_epoch (row_of env u).issued_at "issuedAt")
          (parse_session_epoch (row_of env u).expires_at "expiresAt")
          (parse_session_epoch (env.from_bigint n) "revokedAt"))

  found-IsOver :
      (rows : List UserSession)
      → All (IsRevokedRow id) rows
      → IsOver (normalized env (find (has_id id) rows))
  found-IsOver [] h = tt
  found-IsOver (u ∷ rows) (here, rest) = elim (Bool-cases (has_id id u)) [
    | inl is ↦
        let same : u.session_id ≡ id = ground (arith, is, eq_iff u.session_id id) in
        let (n, at) = here same in rw (is, normalized, find) (row-IsOver u n at)
    | inr other ↦ rw (other, normalized, find) (found-IsOver rows rest)
  ]

  over-unresolved :
      (answer : Result String (Option UserSession)) (u : UserSession) (s : Desk)
      → IsOver answer
      → (continue answer (check_active env) s).0 ≢ ok (some u)
  unfolding check_active check_revoked pure
  over-unresolved (err e) u s over h = cc
  over-unresolved (ok none) u s over h = cc
  over-unresolved (ok (some v)) u s (n, at) h = let shown = rw at at h in cc

  found_over :
      (fault : Option String) (u : UserSession) (s : Desk)
      → All (IsRevokedRow id) s.sessions
      → let r = unless_down fault (normalized env (find (has_id id) s.sessions), s) s in
        (continue r.0 (check_active env) r.1).0 ≢ ok (some u)
  found_over none u s rows = over-unresolved _ u s (found-IsOver s.sessions rows)
  found_over (some e) u s rows = over-unresolved (err e) u s tt

  unresolved :
      (s : Desk) (u : UserSession)
      → All (IsRevokedRow id) s.sessions
      → (resolve_active env id s).0 ≢ ok (some u)
  unfolding resolve_active find_session_by_id query ◌>>=◌
  unresolved s u rows =
      found_over (env.query_fault s.moment) u (record s { moment = suc s.moment }) rows

  abbrev Anything : Desk → Type 0
  Anything s = Unit

  trivial : {A : Type 0} (r : Result String A) (s : Desk) → Outcome (λ _. Anything) Anything r s
  trivial (ok a) s = tt
  trivial (err e) s = tt

  any_method : {A : Type 0} (m : Effect A) → Triple Anything m (λ _. Anything) Anything
  any_method m = record { at = λ s h. trivial (m s).0 (m s).1 }

  abbrev AllRevoked : Desk → Type 0
  AllRevoked s = All (IsRevokedRow id) s.sessions

  updated :
      (fault : Option String) (now n : ℕ) (s : Desk)
      → let r = unless_down fault (revoking env id now n s) s in
        Outcome (λ _. AllRevoked) Anything r.0 r.1
  updated none now n s = revoke-All id now s.sessions
  updated (some e) now n s = tt

  revoke_session-Outcome : Triple Anything (revoke_session env id) (λ _. AllRevoked) Anything
  unfolding revoke_session update_revoked query
  revoke_session-Outcome =
      Triple-bind (now_seconds env) (update_revoked env id) (λ _. Anything)
        (any_method (now_seconds env))
        (λ now. record {
          at = λ s h.
              updated (env.query_fault s.moment) now s.moment (record s { moment = suc s.moment });
        })

  exchange-Outcome :
      (ttl : ℕ) (profile : Option UserProfile)
      → Triple Anything (exchange env id ttl profile) (λ _. AllRevoked) Anything
  unfolding exchange throw
  exchange-Outcome ttl none = record { at = λ s h. tt }
  exchange-Outcome ttl (some profile) =
      Triple-if profile.active _ _
        (λ active.
          Triple-bind (issue env profile ttl) _ (λ _. Anything) (any_method (issue env profile ttl))
            (λ result.
              Triple-bind (revoke_session env id) _ (λ _. AllRevoked) revoke_session-Outcome
                (λ _. record { at = λ s h. h })))
        (λ inactive. record { at = λ s h. tt })

  refresh_existing-Outcome :
      (ttl : ℕ) (row : Option UserSession)
      → Triple Anything (refresh_existing env id ttl row) (λ _. AllRevoked) Anything
  unfolding refresh_existing throw
  refresh_existing-Outcome ttl none = record { at = λ s h. tt }
  refresh_existing-Outcome ttl (some u) =
      Triple-bind (find_profile_by_id env u.user_id) (exchange env id ttl) (λ _. Anything)
        (any_method (find_profile_by_id env u.user_id)) (exchange-Outcome ttl)

  refresh_service-Outcome :
      (ttl : Option ℕ) → Triple Anything (refresh_service env id ttl) (λ _. AllRevoked) Anything
  unfolding refresh_service
  refresh_service-Outcome ttl =
      Triple-bind (resolve_active env id) (refresh_existing env id (or_default ttl)) (λ _. Anything)
        (any_method (resolve_active env id)) (refresh_existing-Outcome (or_default ttl))

  returned :
      {A : Type 0} (r : Result String A) (s : Desk) (a : A)
      → r ≡ ok a
      → Outcome (λ _. AllRevoked) Anything r s
      → AllRevoked s
  returned (ok b) s a h o = o
  returned (err e) s a h o = cc

  -- A session that was revoked never resolves again, whatever requests and housekeeping follow, where no
  -- later random number is its id.
  pub revoke-forever :
      (max_ttl : ℕ) (s : Desk) (actions : List Action) (u : UserSession)
      → (revoke_session env id s).0 ≡ ok tt
      → let s' = (revoke_session env id s).1 in
        ((n : ℕ) → s'.moment ≤ n → env.random_hex n 32 ≢ id)
        → (resolve_active env id (run env max_ttl actions s')).0 ≢ ok (some u)
  revoke-forever max_ttl s actions u done fresh =
      let s' = (revoke_session env id s).1 in
      let rows = returned _ s' tt done (revoke_session-Outcome.at s tt) in
      unresolved (run env max_ttl actions s') u
        (run-keeps env id s'.moment fresh max_ttl actions s' (omega arith, rows)).1

  -- A session that was exchanged for a new one never resolves again, whatever requests and housekeeping
  -- follow, where no later random number is its id.
  pub refresh-forever :
      (max_ttl : ℕ) (ttl : Option ℕ) (s : Desk) (result : SessionIssueResult)
      (actions : List Action) (u : UserSession)
      → (refresh_service env id ttl s).0 ≡ ok result
      → let s' = (refresh_service env id ttl s).1 in
        ((n : ℕ) → s'.moment ≤ n → env.random_hex n 32 ≢ id)
        → (resolve_active env id (run env max_ttl actions s')).0 ≢ ok (some u)
  refresh-forever max_ttl ttl s result actions u done fresh =
      let s' = (refresh_service env id ttl s).1 in
      let rows = returned _ s' result done ((refresh_service-Outcome ttl).at s tt) in
      unresolved (run env max_ttl actions s') u
        (run-keeps env id s'.moment fresh max_ttl actions s' (omega arith, rows)).1
