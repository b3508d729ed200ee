-- ===== src/Auth/Service.antt =====
-- auth/src/core/sessionService.ts. Logging and the counters of auth/src/metrics are left out.
use agroasys_web3layer.Prelude.{ℕ, leb, String, Option, none, some, if◌then◌else◌}
use agroasys_web3layer.Exec.{pure, throw, ◌>>=◌, ◌>>◌}
use agroasys_web3layer.Auth.{
  UserRole, UserProfile, UserSession, SessionIssueResult, Environment, Effect, now_seconds,
}
use agroasys_web3layer.Auth.Texts.{to_lower_case}
use agroasys_web3layer.Auth.Queries.{find_profile_by_id, find_session_by_id, revoke_session}
use agroasys_web3layer.Auth.Stores.{upsert, issue}

abbrev pub default_ttl_seconds : ℕ
default_ttl_seconds = 3600

-- `ttlSeconds = 3600`
abbrev pub or_default : Option ℕ → ℕ
or_default none = default_ttl_seconds
or_default (some n) = n

module _ (env : Environment) where
  unfoldable pub unexpired : UserSession → Effect (Option UserSession)
  unfolding now_seconds ◌>>=◌
  unexpired session = do
    now ← now_seconds env
    if leb session.expires_at now then pure none else pure (some session)

  unfoldable pub check_revoked : UserSession → Option ℕ → Effect (Option UserSession)
  unfolding unexpired
  check_revoked session none = unexpired session
  check_revoked session (some n) = pure none

  unfoldable pub check_active : Option UserSession → Effect (Option UserSession)
  unfolding check_revoked
  check_active none = pure none
  check_active (some session) = check_revoked session session.revoked_at

  unfoldable pub resolve_active : String → Effect (Option UserSession)
  unfolding check_active ◌>>=◌
  resolve_active id = find_session_by_id env id >>= check_active

  unfoldable pub issue_active : UserProfile → ℕ → Effect SessionIssueResult
  issue_active profile ttl =
      if profile.active then issue env profile ttl else throw "User profile is deactivated"

  unfoldable pub login_service :
      String → UserRole → Option String → Option ℕ → Effect SessionIssueResult
  unfolding issue_active ◌>>=◌
  login_service wallet role org ttl = do
    profile ← upsert env (to_lower_case wallet) role org
    issue_active profile (or_default ttl)

  -- The session of an active profile is exchanged.
  unfoldable pub exchange : String → ℕ → Option UserProfile → Effect SessionIssueResult
  unfolding ◌>>=◌
  exchange id ttl none = throw "User profile is inactive or not found"
  exchange id ttl (some profile) =
      if profile.active
      then (do result ← issue env profile ttl; revoke_session env id; pure result)
      else throw "User profile is inactive or not found"

  unfoldable pub refresh_existing : String → ℕ → Option UserSession → Effect SessionIssueResult
  unfolding exchange ◌>>=◌
  refresh_existing id ttl none = throw "Session is invalid, expired, or revoked"
  refresh_existing id ttl (some existing) = do
    profile ← find_profile_by_id env existing.user_id
    exchange id ttl profile

  unfoldable pub refresh_service : String → Option ℕ → Effect SessionIssueResult
  unfolding refresh_existing resolve_active ◌>>=◌
  refresh_service id ttl = resolve_active id >>= refresh_existing id (or_default ttl)
