-- ===== src/Auth/Login.antt =====
-- What the login of auth/src/api/controller.ts does to the challenges.
pub mod Signed
pub mod Later
use agroasys_web3layer.Prelude.{
  ℕ, suc, ◌+◌, ◌<◌, String, Bool, true, false, ◌≡◌, ◌≢◌, refl, sym, ap, ◌∙◌, inl, inr, Option, none,
  some, List, [], ◌∷◌, arith, Bool-cases, Option-cases, any, str_eq, eq_iff, leb, if◌then◌else◌,
}
use agroasys_web3layer.Exec.{
  Result, ok, err, Exec, pure, throw, modify, catch, ◌>>=◌, ◌>>◌, continue,
}
use agroasys_web3layer.Exec.Keeps.{
  Keeps, Keeps-pure, Keeps-throw, Keeps-if, Keeps-catch, Keeps-bind,
}
use agroasys_web3layer.Exec.Triple.{Outcome, Triple, Triple-if, Triple-bind, Keeps-Triple}
use agroasys_web3layer.Auth.{
  UserRole, UserProfile, UserSession, Challenge, SessionIssueResult, Environment, Desk, Effect,
  tick, now_seconds,
}
use agroasys_web3layer.Auth.Texts.{to_lower_case}
use agroasys_web3layer.Auth.Queries.{
  query, upserting, inserting, new_row, has_id, unless_down, upsert_profile, insert_session_row,
  insert_session,
}
use agroasys_web3layer.Auth.Stores.{
  entry, remove, delete_challenge, usable, get_challenge_nonce, upsert, fresh_id, issue,
}
use agroasys_web3layer.Auth.Service.{issue_active, login_service, or_default}
use agroasys_web3layer.Auth.Controller.{
  Reply, issued, refused, unauthorized, LoginBody, checked_body, given, build_challenge_message,
  signature_error, recovery_error, safe_ttl, open_session, consume, with_nonce, login_checked,
  login_fields, login,
}

entry-remove : (k : String) (store : List (String × Challenge)) → entry k (remove k store) ≡ none
entry-remove k [] = refl
entry-remove k ((key, c) ∷ store) =
    let rest = entry-remove k store in
    elim (Bool-cases (str_eq key k)) [
      | inl same ↦ rw same rest
      | inr other ↦ rw other (rw other rest)
    ]

module _ (env : Environment) (key : String) where
  abbrev Spent : Desk → Type 0
  Spent s = entry key s.challenges ≡ none

  answered :
      {A : Type 0} (fault : Option String) (answer : Result String A × Desk) (s : Desk)
      → Spent answer.1
      → Spent s
      → Spent (unless_down fault answer s).1
  answered none answer s h p = h
  answered (some e) answer s h p = p

  query-Keeps :
      {A : Type 0} (statement : ℕ → Desk → Result String A × Desk)
      → ((n : ℕ) (s : Desk) → (statement n s).1.challenges ≡ s.challenges)
      → Keeps Spent (query env statement)
  unfolding query
  query-Keeps statement same = record {
    at = λ s p.
        answered (env.query_fault s.moment)
          (statement s.moment (record s { moment = suc s.moment }))
          (record s { moment = suc s.moment })
          (rw (same s.moment (record s { moment = suc s.moment })) p) p;
  }

  inserting-challenges :
      (row : UserSession) (n : ℕ) (s : Desk) → (inserting env row n s).1.challenges ≡ s.challenges
  inserting-challenges row n s = elim (Bool-cases (any (has_id row.session_id) s.sessions)) [
    | inl taken ↦ rw taken refl
    | inr free ↦ rw free refl
  ]

  issue-Keeps : (profile : UserProfile) (ttl : ℕ) → Keeps Spent (issue env profile ttl)
  unfolding issue fresh_id insert_session insert_session_row now_seconds tick ◌>>=◌ pure
  issue-Keeps profile ttl =
      Keeps-bind (fresh_id env) _ (record { at = λ s p. p })
        (λ id.
          Keeps-bind (now_seconds env) _ (record { at = λ s p. p })
            (λ now.
              Keeps-bind (insert_session env id profile (now + ttl)) _
                (Keeps-bind (now_seconds env) _ (record { at = λ s p. p })
                  (λ later.
                    query-Keeps (inserting env (new_row env id profile (now + ttl) later))
                      (inserting-challenges (new_row env id profile (now + ttl) later))))
                (λ _. Keeps-pure (record { session_id = id; expires_at = now + ttl }))))

  login_service-Keeps :
      (wallet : String) (role : UserRole) (org : Option String) (ttl : Option ℕ)
      → Keeps Spent (login_service env wallet role org ttl)
  unfolding login_service upsert upsert_profile issue_active
  login_service-Keeps wallet role org ttl =
      Keeps-bind (upsert env (to_lower_case wallet) role org) _
        (query-Keeps (upserting env (to_lower_case (to_lower_case wallet)) role org) (λ n s. refl))
        (λ profile.
          Keeps-if profile.active _ _ (issue-Keeps profile (or_default ttl)) (Keeps-throw _))

  open_session-Keeps :
      (max_ttl : ℕ) (wallet : String) (role : UserRole) (org : Option String) (ttl : Option ℕ)
      → Keeps Spent (open_session env max_ttl wallet role org ttl)
  unfolding open_session
  open_session-Keeps max_ttl wallet role org ttl =
      Keeps-catch _ _
        (Keeps-bind (login_service env wallet role org (safe_ttl env max_ttl ttl)) _
          (login_service-Keeps wallet role org (safe_ttl env max_ttl ttl))
          (λ result. Keeps-pure (issued 201 result)))
        (λ e. Keeps-pure (refused 403 "Forbidden" e))

abbrev pub IsIssued : Reply → Type 0
IsIssued (issued status result) = Unit
IsIssued _ = ⊥

module _ (env : Environment) (max_ttl : ℕ) where
  abbrev Anything : Desk → Type 0
  Anything s = Unit

  -- A reply that issues a session leaves no challenge for the key.
  abbrev Spends : String → Reply → Desk → Type 0
  Spends key reply s = IsIssued reply → Spent env key s

  no_throw : {A : Type 0} (m : Effect A) → Triple Anything m (λ _. Anything) Anything
  no_throw m = record { at = λ s h. trivial (m s).0 (m s).1 }
    where
      trivial : {A : Type 0} (r : Result String A) (s : Desk) → Outcome (λ _. Anything) Anything r s
      trivial (ok a) s = tt
      trivial (err e) s = tt

  Spent-after :
      (r : Result String Reply) (key : String) (s : Desk)
      → Outcome (λ _. Spent env key) (Spent env key) r s
      → Outcome (Spends key) Anything r s
  Spent-after (ok reply) key s h = λ _. h
  Spent-after (err e) key s h = tt

  consume-Outcome :
      (wallet : String) (role : UserRole) (body : LoginBody) (e : Option String)
      → Triple Anything
          (consume env max_ttl wallet role body e)
          (Spends (to_lower_case wallet))
          Anything
  unfolding consume delete_challenge modify ◌>>=◌ pure
  consume-Outcome wallet role body (some e) = record { at = λ s h i. elim i [ ] }
  consume-Outcome wallet role body none = record {
    at = λ s h.
        let key = to_lower_case wallet in
        let s' : Desk = record s { challenges = remove key s.challenges } in
        let opening = open_session env max_ttl wallet role body.org_id body.ttl_seconds in
        let kept =
          Keeps-Triple (Spent env key) opening
            (open_session-Keeps env key max_ttl wallet role body.org_id body.ttl_seconds) in
        Spent-after (opening s').0 key (opening s').1 (kept.at s' (entry-remove key s.challenges));
  }

  with_nonce-Outcome :
      (wallet signature : String) (role : UserRole) (body : LoginBody) (nonce : Option String)
      → Triple Anything
          (with_nonce env max_ttl wallet signature role body nonce)
          (Spends (to_lower_case wallet))
          Anything
  unfolding with_nonce pure
  with_nonce-Outcome wallet signature role body none = record { at = λ s h i. elim i [ ] }
  with_nonce-Outcome wallet signature role body (some nonce) =
      consume-Outcome wallet role body (signature_error env wallet nonce signature)

  login-Outcome :
      (address signature : String) (role : UserRole) (body : LoginBody)
      → checked_body body ≡ ok (address, signature, role)
      → Triple Anything
          (login env max_ttl body)
          (Spends (to_lower_case (to_lower_case address)))
          Anything
  unfolding login login_fields login_checked
  login-Outcome address signature role body fields = rw fields (
      Triple-bind (get_challenge_nonce env (to_lower_case address)) _ (λ _. Anything)
        (no_throw (get_challenge_nonce env (to_lower_case address)))
        (λ nonce. with_nonce-Outcome (to_lower_case address) signature role body (given nonce)))

  pub ok_is : (a b : Reply) → ◌≡◌ {A = Result String Reply} (ok a) (ok b) → a ≡ b
  ok_is a b h = cc

  issued_state :
      (r : Result String Reply) (key : String) (reply : Reply) (s : Desk)
      → r ≡ ok reply
      → IsIssued reply
      → Outcome (Spends key) Anything r s
      → Spent env key s
  issued_state (ok reply') key reply s h i o = o (rw (ok_is reply' reply h) i)
  issued_state (err e) key reply s h i o = cc

  refuses :
      (address signature : String) (role : UserRole) (body : LoginBody) (s : Desk)
      → checked_body body ≡ ok (address, signature, role)
      → Spent env (to_lower_case (to_lower_case address)) s
      → ((login env max_ttl body s).0
          ≡ ok (unauthorized "No active challenge for this wallet. Call GET /challenge first."))
        × ((login env max_ttl body s).1.profiles ≡ s.profiles)
        × ((login env max_ttl body s).1.sessions ≡ s.sessions)
  unfolding login login_fields login_checked get_challenge_nonce usable with_nonce pure ◌>>=◌
  refuses address signature role body s fields spent = rw fields (rw spent (refl, refl, refl))
