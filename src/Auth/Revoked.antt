-- ===== src/Auth/Revoked.antt =====
-- What the statements of auth/src do to a revoked session.
pub mod Requests
pub mod Forever
use agroasys_web3layer.Prelude.{
  ℕ, suc, ◌+◌, ◌≤◌, String, Bool, true, false, ◌≡◌, ◌≢◌, refl, sym, ap, ◌∙◌, inl, inr, Option, none,
  some, List, [], ◌∷◌, arith, Bool-cases, All, map, any, leb, str_eq, eq_iff, if◌then◌else◌,
}
use agroasys_web3layer.Exec.{Result, ok, err, Exec, pure, throw, modify, catch, ◌>>=◌, ◌>>◌}
use agroasys_web3layer.Exec.Keeps.{
  Keeps, Keeps-pure, Keeps-throw, Keeps-if, Keeps-catch, Keeps-bind, Keeps-modify,
}
use agroasys_web3layer.Exec.Triple.{Triple, Triple-bind, Keeps-Triple, Triple-Keeps}
use agroasys_web3layer.Auth.{
  UserRole, UserProfile, UserSession, SessionIssueResult, Environment, Desk, Effect, tick,
  now_seconds,
}
use agroasys_web3layer.Auth.Queries.{
  query, new_row, upserting, profile_where, deactivating, session_where, revoking, deleting,
  inserting, has_id, revoked_row, live_rows, upsert_profile, find_profile_by_id, deactivate_profile,
  insert_session_row, insert_session, find_session_by_id, update_revoked, revoke_session,
  delete_expired, prune_expired_sessions, unless_down,
}
use agroasys_web3layer.Auth.Stores.{
  delete_challenge, usable, set_challenge, get_challenge_nonce, purge_challenges, upsert, fresh_id,
  issue,
}
use agroasys_web3layer.Auth.Service.{
  unexpired, check_revoked, check_active, resolve_active, issue_active, login_service, exchange,
  refresh_existing, refresh_service,
}

-- Every row with the id is revoked.
abbrev pub IsRevokedRow : String → UserSession → Type 0
IsRevokedRow id u = u.session_id ≡ id → (n : ℕ) × (u.revoked_at ≡ some n)

-- From a moment on, every row with the id is revoked.
abbrev pub IsRevoked : String → ℕ → Desk → Type 0
IsRevoked id k s = (k ≤ s.moment) × All (IsRevokedRow id) s.sessions

module _ (id : String) where
  map-revoked :
      (other : String) (now : ℕ) (rows : List UserSession)
      → All (IsRevokedRow id) rows
      → All (IsRevokedRow id) (map (revoked_row other now) rows)
  map-revoked other now [] h = tt
  map-revoked other now (u ∷ rows) (here, rest) =
      let later = map-revoked other now rows rest in
      elim (Bool-cases (has_id other u)) [
        | inl is ↦ rw is (λ e. (now, refl), later)
        | inr other ↦ rw other (here, later)
      ]

  live-revoked :
      (now : ℕ) (rows : List UserSession)
      → All (IsRevokedRow id) rows
      → All (IsRevokedRow id) (live_rows now rows)
  live-revoked now [] h = tt
  live-revoked now (u ∷ rows) (here, rest) =
      let later = live-revoked now rows rest in
      elim (Bool-cases (leb u.expires_at now)) [
        | inl over ↦ rw over later
        | inr live ↦ rw live (here, later)
      ]

  -- The row that is revoked has the id.
  revoke-All :
      (now : ℕ) (rows : List UserSession) → All (IsRevokedRow id) (map (revoked_row id now) rows)
  revoke-All now [] = tt
  revoke-All now (u ∷ rows) =
      let later = revoke-All now rows in
      elim (Bool-cases (has_id id u)) [
        | inl is ↦ rw is (λ e. (now, refl), later)
        | inr other ↦ rw other (λ e. ground (arith, other, eq_iff u.session_id id, e), later)
      ]

module _ (env : Environment) (id : String) (k : ℕ) where
  abbrev pub P : Desk → Type 0
  P = IsRevoked id k

  answered :
      {A : Type 0} (fault : Option String) (answer : Result String A × Desk) (s : Desk)
      → P answer.1
      → P s
      → P (unless_down fault answer s).1
  answered none answer s h p = h
  answered (some e) answer s h p = p

  pub query-Keeps :
      {A : Type 0} (statement : ℕ → Desk → Result String A × Desk)
      → ((n : ℕ) (s : Desk) → P s → P (statement n s).1)
      → Keeps P (query env statement)
  unfolding query
  query-Keeps statement keeps = record {
    at = λ s (late, rows).
        let next : P (record s { moment = suc s.moment }) = (omega (arith, late), rows) in
        answered (env.query_fault s.moment) _ _ (keeps s.moment _ next) next;
  }

  pub now_seconds-Keeps : Keeps P (now_seconds env)
  unfolding now_seconds tick ◌>>=◌ pure
  now_seconds-Keeps = record { at = λ s (late, rows). (omega (arith, late), rows) }

  pub upsert_profile-Keeps :
      (wallet : String) (role : UserRole) (org : Option String)
      → Keeps P (upsert_profile env wallet role org)
  unfolding upsert_profile
  upsert_profile-Keeps wallet role org = query-Keeps (upserting env wallet role org) (λ n s p. p)

  pub find_profile_by_id-Keeps : (user : String) → Keeps P (find_profile_by_id env user)
  unfolding find_profile_by_id
  find_profile_by_id-Keeps user =
      query-Keeps (profile_where env (λ p. str_eq p.id user)) (λ n s p. p)

  pub deactivate_profile-Keeps : (user : String) → Keeps P (deactivate_profile env user)
  unfolding deactivate_profile
  deactivate_profile-Keeps user = query-Keeps (deactivating env user) (λ n s p. p)

  pub find_session_by_id-Keeps : (other : String) → Keeps P (find_session_by_id env other)
  unfolding find_session_by_id
  find_session_by_id-Keeps other = query-Keeps (session_where env other) (λ n s p. p)

  update_revoked-Keeps : (other : String) (now : ℕ) → Keeps P (update_revoked env other now)
  unfolding update_revoked
  update_revoked-Keeps other now =
      query-Keeps (revoking env other now)
        (λ n s (late, rows). (late, map-revoked id other now s.sessions rows))

  pub revoke_session-Keeps : (other : String) → Keeps P (revoke_session env other)
  unfolding revoke_session
  revoke_session-Keeps other =
      Keeps-bind _ _ now_seconds-Keeps (λ now. update_revoked-Keeps other now)

  delete_expired-Keeps : (now : ℕ) → Keeps P (delete_expired env now)
  unfolding delete_expired
  delete_expired-Keeps now =
      query-Keeps (deleting env now)
        (λ n s (late, rows). (late, live-revoked id now s.sessions rows))

  pub prune_expired_sessions-Keeps : Keeps P (prune_expired_sessions env)
  unfolding prune_expired_sessions
  prune_expired_sessions-Keeps = Keeps-bind _ _ now_seconds-Keeps (λ now. delete_expired-Keeps now)

  -- An insertion under another id.
  inserted :
      (row : UserSession) (n : ℕ) (s : Desk)
      → row.session_id ≢ id
      → P s
      → P (inserting env row n s).1
  inserted row n s different (late, rows) =
      elim (Bool-cases (any (has_id row.session_id) s.sessions)) [
        | inl taken ↦ rw taken (late, rows)
        | inr free ↦ rw free (late, (λ same. elim (different same) [ ], rows))
      ]

  insert_session_row-Keeps :
      (row : UserSession) → row.session_id ≢ id → Keeps P (insert_session_row env row)
  unfolding insert_session_row
  insert_session_row-Keeps row different =
      query-Keeps (inserting env row) (λ n s p. inserted row n s different p)

  insert_session-Keeps :
      (other : String) (profile : UserProfile) (expires : ℕ)
      → other ≢ id
      → Keeps P (insert_session env other profile expires)
  unfolding insert_session
  insert_session-Keeps other profile expires different =
      Keeps-bind _ _ now_seconds-Keeps
        (λ now. insert_session_row-Keeps (new_row env other profile expires now) different)

  -- What follows a fresh id may use that it is another one, where no later random number is the id.
  module _ (fresh : (n : ℕ) → k ≤ n → env.random_hex n 32 ≢ id) where
    fresh_id-Outcome : Triple P (fresh_id env) (λ other s. P s × (other ≢ id)) P
    unfolding fresh_id tick ◌>>=◌ pure
    fresh_id-Outcome = record {
      at = λ s (late, rows). ((omega (arith, late), rows), fresh s.moment late);
    }

    abbrev rest_of : UserProfile → ℕ → String → Effect SessionIssueResult
    rest_of profile ttl other = do
      now ← now_seconds env
      insert_session env other profile (now + ttl)
      pure (record { session_id = other; expires_at = now + ttl })

    rest_of-Keeps :
        (profile : UserProfile) (ttl : ℕ) (other : String)
        → other ≢ id
        → Keeps P (rest_of profile ttl other)
    rest_of-Keeps profile ttl other different = Keeps-bind _ _ now_seconds-Keeps (λ now.
        Keeps-bind _ _ (insert_session-Keeps other profile (now + ttl) different)
          (λ _. Keeps-pure _))

    pub issue-Keeps : (profile : UserProfile) (ttl : ℕ) → Keeps P (issue env profile ttl)
    unfolding issue
    issue-Keeps profile ttl = Triple-Keeps P _ (
        Triple-bind _ _ (λ other s. P s × (other ≢ id)) fresh_id-Outcome
          (λ other. record {
            at = λ s (p, different).
                (Keeps-Triple P _ (rest_of-Keeps profile ttl other different)).at s p;
          }))
