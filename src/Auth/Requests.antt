-- ===== src/Auth/Requests.antt =====
-- What the requests of auth/src keep, where the statements of the database and the stores keep it.
use agroasys_web3layer.Prelude.{ℕ, suc, String, Option, none, some, leb}
use agroasys_web3layer.Exec.{Result, ok, err}
use agroasys_web3layer.Exec.Keeps.{
  Keeps, Keeps-pure, Keeps-throw, Keeps-if, Keeps-catch, Keeps-bind,
}
use agroasys_web3layer.Auth.{
  Challenge, UserRole, UserProfile, UserSession, Environment, Desk, Effect,
}
use agroasys_web3layer.Auth.Stores.{delete_challenge, usable, get_challenge_nonce, upsert}
use agroasys_web3layer.Auth.Service.{
  unexpired, check_revoked, check_active, resolve_active, issue_active, login_service, exchange,
  refresh_existing, refresh_service, or_default,
}
use agroasys_web3layer.Auth.Controller.{
  Reply, LoginBody, Request, challenge_request, login_request, session_request, refresh_request,
  revoke_request, get_challenge, checked_body, open_session, consume, with_nonce, login_checked,
  login, login_fields, with_token, given, signature_error, refresh, revoke, get_session, bearer,
  attach, with_session, handled, serve,
}
use agroasys_web3layer.Auth.Queries.{
  upsert_profile, find_profile_by_id, find_session_by_id, revoke_session,
}
use agroasys_web3layer.Auth.Stores.{issue}
use agroasys_web3layer.Auth.{now_seconds}

-- What the statements and the stores keep.
pub record Base (env : Environment) (Q : Desk → Type 0) : Type 0 where
  pub keeps_moment : (s : Desk) → Q s → Q (record s { moment = suc s.moment })
  pub keeps_now_seconds : Keeps Q (now_seconds env)
  pub keeps_upsert_profile :
      (wallet : String) (role : UserRole) (org : Option String)
      → Keeps Q (upsert_profile env wallet role org)
  pub keeps_find_profile_by_id : (user : String) → Keeps Q (find_profile_by_id env user)
  pub keeps_find_session_by_id : (id : String) → Keeps Q (find_session_by_id env id)
  pub keeps_revoke_session : (id : String) → Keeps Q (revoke_session env id)
  pub keeps_issue : (profile : UserProfile) (ttl : ℕ) → Keeps Q (issue env profile ttl)
  pub keeps_delete_challenge : (wallet : String) → Keeps Q (delete_challenge wallet)

module _ (env : Environment) (Q : Desk → Type 0) (base : Base env Q) where
  unexpired-Keeps : (session : UserSession) → Keeps Q (unexpired env session)
  unfolding unexpired
  unexpired-Keeps session = Keeps-bind _ _ (base.keeps_now_seconds) (λ now.
      Keeps-if (leb session.expires_at now) _ _ (Keeps-pure none) (Keeps-pure (some session)))

  check_active-Keeps : (row : Option UserSession) → Keeps Q (check_active env row)
  unfolding check_active check_revoked
  check_active-Keeps none = Keeps-pure _
  check_active-Keeps (some u) = elim u.revoked_at as (λ r. Keeps Q (check_revoked env u r)) [
    | none ↦ unexpired-Keeps u
    | some n ↦ Keeps-pure _
  ]

  resolve_active-Keeps : (other : String) → Keeps Q (resolve_active env other)
  unfolding resolve_active
  resolve_active-Keeps other =
      Keeps-bind _ _ (base.keeps_find_session_by_id other) check_active-Keeps

  issue_active-Keeps : (ttl : ℕ) (profile : UserProfile) → Keeps Q (issue_active env profile ttl)
  unfolding issue_active
  issue_active-Keeps ttl profile =
      Keeps-if profile.active _ _ (base.keeps_issue profile ttl) (Keeps-throw _)

  login_service-Keeps :
      (wallet : String) (role : UserRole) (org : Option String) (ttl : Option ℕ)
      → Keeps Q (login_service env wallet role org ttl)
  unfolding login_service upsert
  login_service-Keeps wallet role org ttl =
      Keeps-bind _ _ (base.keeps_upsert_profile _ role org) (issue_active-Keeps (or_default ttl))

  exchange-Keeps :
      (other : String) (ttl : ℕ) (profile : Option UserProfile)
      → Keeps Q (exchange env other ttl profile)
  unfolding exchange
  exchange-Keeps other ttl none = Keeps-throw _
  exchange-Keeps other ttl (some profile) =
      Keeps-if profile.active _ _
        (Keeps-bind _ _ (base.keeps_issue profile ttl)
          (λ result. Keeps-bind _ _ (base.keeps_revoke_session other) (λ _. Keeps-pure _)))
        (Keeps-throw _)

  refresh_existing-Keeps :
      (other : String) (ttl : ℕ) (row : Option UserSession)
      → Keeps Q (refresh_existing env other ttl row)
  unfolding refresh_existing
  refresh_existing-Keeps other ttl none = Keeps-throw _
  refresh_existing-Keeps other ttl (some existing) =
      Keeps-bind _ _ (base.keeps_find_profile_by_id existing.user_id) (exchange-Keeps other ttl)

  refresh_service-Keeps :
      (other : String) (ttl : Option ℕ) → Keeps Q (refresh_service env other ttl)
  unfolding refresh_service
  refresh_service-Keeps other ttl =
      Keeps-bind _ _ (resolve_active-Keeps other) (refresh_existing-Keeps other (or_default ttl))

  usable-Keeps : (wallet : String) (now : ℕ) (c : Option Challenge) → Keeps Q (usable wallet now c)
  unfolding usable
  usable-Keeps wallet now none = Keeps-pure _
  usable-Keeps wallet now (some c) =
      Keeps-if _ _ _ (Keeps-bind _ _ (base.keeps_delete_challenge wallet) (λ _. Keeps-pure _))
        (Keeps-pure _)

  get_challenge_nonce-Keeps : (wallet : String) → Keeps Q (get_challenge_nonce env wallet)
  unfolding get_challenge_nonce
  get_challenge_nonce-Keeps wallet = record {
    at = λ s q.
        (usable-Keeps wallet (env.now s.moment) _).at (record s { moment = suc s.moment })
          (base.keeps_moment s q);
  }

  consume-Keeps :
      (max_ttl : ℕ) (wallet : String) (role : UserRole) (body : LoginBody) (e : Option String)
      → Keeps Q (consume env max_ttl wallet role body e)
  unfolding consume open_session
  consume-Keeps max_ttl wallet role body (some e) = Keeps-pure _
  consume-Keeps max_ttl wallet role body none =
      Keeps-bind _ _ (base.keeps_delete_challenge wallet) (λ _.
        Keeps-catch _ _
          (Keeps-bind _ _ (login_service-Keeps wallet role body.org_id _) (λ result. Keeps-pure _))
          (λ e. Keeps-pure _))

  with_nonce-Keeps :
      (max_ttl : ℕ) (wallet signature : String) (role : UserRole) (body : LoginBody)
      (nonce : Option String)
      → Keeps Q (with_nonce env max_ttl wallet signature role body nonce)
  unfolding with_nonce
  with_nonce-Keeps max_ttl wallet signature role body none = Keeps-pure _
  with_nonce-Keeps max_ttl wallet signature role body (some nonce) =
      consume-Keeps max_ttl wallet role body (signature_error env wallet nonce signature)

  checked_login-Keeps :
      (max_ttl : ℕ) (body : LoginBody) (fields : Result Reply (String × String × UserRole))
      → Keeps Q (login_fields env max_ttl body fields)
  unfolding login_fields login_checked
  checked_login-Keeps max_ttl body (err reply) = Keeps-pure _
  checked_login-Keeps max_ttl body (ok (address, signature, role)) =
      Keeps-bind _ _ (get_challenge_nonce-Keeps _)
        (λ nonce. with_nonce-Keeps max_ttl _ signature role body (given nonce))

  attach-Keeps :
      (next : UserSession → Effect Reply)
      → ((session : UserSession) → Keeps Q (next session))
      → (row : Option UserSession) → Keeps Q (attach env next row)
  attach-Keeps next keeps none = Keeps-pure _
  attach-Keeps next keeps (some session) = keeps session

  with_token-Keeps :
      (next : UserSession → Effect Reply)
      → ((session : UserSession) → Keeps Q (next session))
      → (token : Result Reply String) → Keeps Q (with_token env next token)
  unfolding with_token
  with_token-Keeps next keeps (err reply) = Keeps-pure _
  with_token-Keeps next keeps (ok other) =
      Keeps-bind _ _ (Keeps-catch _ _ (resolve_active-Keeps other) (λ e. Keeps-pure none))
        (attach-Keeps next keeps)

  refresh-Keeps : (session : UserSession) → Keeps Q (refresh env session)
  unfolding refresh
  refresh-Keeps session =
      Keeps-catch _ _
        (Keeps-bind _ _ (refresh_service-Keeps session.session_id none) (λ result. Keeps-pure _))
        (λ e. Keeps-pure _)

  handled-Keeps : (m : Effect Reply) → Keeps Q m → Keeps Q (handled env m)
  unfolding handled
  handled-Keeps m keeps = Keeps-catch _ _ keeps (λ e. Keeps-pure _)

  -- What a request for a challenge must keep by itself.
  abbrev pub IsAsked : Request → Type 0
  IsAsked (challenge_request wallet) = Keeps Q (get_challenge env wallet)
  IsAsked _ = Unit

  pub serve-Keeps : (max_ttl : ℕ) (r : Request) → IsAsked r → Keeps Q (serve env max_ttl r)
  unfolding serve login with_session get_session revoke
  serve-Keeps max_ttl (challenge_request wallet) asked = handled-Keeps _ asked
  serve-Keeps max_ttl (login_request body) asked =
      handled-Keeps _ (checked_login-Keeps max_ttl body (checked_body body))
  serve-Keeps max_ttl (session_request header) asked =
      handled-Keeps _ (with_token-Keeps _ (λ session. Keeps-pure _) (bearer header))
  serve-Keeps max_ttl (refresh_request header) asked =
      handled-Keeps _ (with_token-Keeps _ refresh-Keeps (bearer header))
  serve-Keeps max_ttl (revoke_request header) asked = handled-Keeps _ (
      with_token-Keeps _
        (λ session.
          Keeps-bind _ _ (base.keeps_revoke_session session.session_id) (λ _. Keeps-pure _))
        (bearer header))
