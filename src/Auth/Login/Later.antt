-- ===== src/Auth/Login/Later.antt =====
-- The logins of auth/src/api/controller.ts after one that issued a session.
use agroasys_web3layer.Prelude.{
  ℕ, String, false, ◌≡◌, refl, inl, inr, Option, none, some, List, [], ◌∷◌, Bool-cases, All, str_eq,
  leb,
}
use agroasys_web3layer.Exec.{ok}
use agroasys_web3layer.Exec.Keeps.{Keeps, Keeps-pure, Keeps-if, Keeps-bind, Keeps-modify}
use agroasys_web3layer.Auth.{UserRole, Challenge, Environment, Desk, tick, now_seconds}
use agroasys_web3layer.Auth.Texts.{to_lower_case}
use agroasys_web3layer.Auth.Queries.{
  upserting, upsert_profile, find_profile_by_id, profile_where, find_session_by_id, session_where,
  revoke_session, revoking, update_revoked, deactivate_profile, deactivating,
  prune_expired_sessions, delete_expired, deleting,
}
use agroasys_web3layer.Auth.Stores.{
  entry, remove, purged, delete_challenge, set_challenge, purge_challenges,
}
use agroasys_web3layer.Auth.Controller.{
  Reply, LoginBody, unauthorized, checked_body, get_challenge, login, Request, challenge_request,
  login_request, session_request, refresh_request, revoke_request, Action, request, purge, prune,
  deactivate, act, run,
}
use agroasys_web3layer.Auth.Requests.{Base, IsAsked, serve-Keeps}
use agroasys_web3layer.Auth.Login.{
  Spent, query-Keeps, issue-Keeps, IsIssued, login-Outcome, issued_state, refuses,
}

entry-remove_other :
    (k other : String) (store : List (String × Challenge))
    → entry k store ≡ none
    → entry k (remove other store) ≡ none
entry-remove_other k other [] h = refl
entry-remove_other k other ((key, c) ∷ store) h = elim (Bool-cases (str_eq key k)) [
  | inl is ↦ let held = rw is at h in let bad : ⊥ = cc in elim bad [ ]
  | inr is_not ↦
      let rest = entry-remove_other k other store (rw is_not at h) in
      elim (Bool-cases (str_eq key other)) [
        | inl gone ↦ rw gone rest
        | inr stays ↦ rw stays (rw is_not rest)
      ]
]

entry-purged :
    (k : String) (now : ℕ) (store : List (String × Challenge))
    → entry k store ≡ none
    → entry k (purged now store) ≡ none
entry-purged k now [] h = refl
entry-purged k now ((key, c) ∷ store) h = elim (Bool-cases (str_eq key k)) [
  | inl is ↦ let held = rw is at h in let bad : ⊥ = cc in elim bad [ ]
  | inr is_not ↦
      let rest = entry-purged k now store (rw is_not at h) in
      elim (Bool-cases (leb c.expires_at now)) [
        | inl over ↦ rw over rest
        | inr live ↦ rw live (rw is_not rest)
      ]
]

-- The action is no request for a challenge of the wallet whose entry this is.
unfoldable pub IsQuiet : String → Action → Type 0
IsQuiet key (request (challenge_request (some wallet))) =
    str_eq (to_lower_case (to_lower_case wallet)) key ≡ false
IsQuiet key _ = Unit

module _ (env : Environment) (key : String) where
  now_seconds-Keeps : Keeps (Spent env key) (now_seconds env)
  unfolding now_seconds tick
  now_seconds-Keeps = record { at = λ s h. h }

  revoke_session-Keeps : (id : String) → Keeps (Spent env key) (revoke_session env id)
  unfolding revoke_session update_revoked
  revoke_session-Keeps id =
      Keeps-bind _ _ now_seconds-Keeps
        (λ now. query-Keeps env key (revoking env id now) (λ n s. refl))

  spent_base : Base env (Spent env key)
  unfolding upsert_profile find_profile_by_id find_session_by_id delete_challenge
  spent_base = record {
    keeps_moment = λ s h. h;
    keeps_now_seconds = now_seconds-Keeps;
    keeps_upsert_profile =
        λ wallet role org. query-Keeps env key (upserting env wallet role org) (λ n s. refl);
    keeps_find_profile_by_id =
        λ user. query-Keeps env key (profile_where env (λ p. str_eq p.id user)) (λ n s. refl);
    keeps_find_session_by_id = λ id. query-Keeps env key (session_where env id) (λ n s. refl);
    keeps_revoke_session = revoke_session-Keeps;
    keeps_issue = issue-Keeps env key;
    keeps_delete_challenge = λ wallet.
        Keeps-modify _ (λ s h. entry-remove_other key (to_lower_case wallet) s.challenges h);
  }

  get_challenge-Keeps :
      (wallet : Option String)
      → IsQuiet key (request (challenge_request wallet))
      → Keeps (Spent env key) (get_challenge env wallet)
  unfolding get_challenge tick set_challenge IsQuiet
  get_challenge-Keeps none quiet = Keeps-pure _
  get_challenge-Keeps (some wallet) quiet =
      Keeps-if _ _ _
        (Keeps-bind _ _ (record { at = λ s h. h })
          (λ nonce.
            Keeps-bind _ _
              (record {
                at = λ s h.
                    rw quiet (
                      entry-remove_other key (to_lower_case (to_lower_case wallet)) s.challenges h);
              })
              (λ _. Keeps-pure _)))
        (Keeps-pure _)

  asked : (r : Request) → IsQuiet key (request r) → IsAsked env (Spent env key) spent_base r
  asked (challenge_request wallet) quiet = get_challenge-Keeps wallet quiet
  asked (login_request body) quiet = tt
  asked (session_request header) quiet = tt
  asked (refresh_request header) quiet = tt
  asked (revoke_request header) quiet = tt

  module _ (max_ttl : ℕ) where
    act-Spent :
        (a : Action) (s : Desk)
        → IsQuiet key a
        → Spent env key s
        → Spent env key (act env max_ttl a s)
    unfolding act purge_challenges prune_expired_sessions delete_expired deactivate_profile
    act-Spent (request r) s quiet h =
        (serve-Keeps env (Spent env key) spent_base max_ttl r (asked r quiet)).at s h
    act-Spent purge s quiet h = entry-purged key (env.now s.moment) s.challenges h
    act-Spent prune s quiet h =
        (Keeps-bind _ _ now_seconds-Keeps
            (λ now. query-Keeps env key (deleting env now) (λ n u. refl))).at
          s h
    act-Spent (deactivate user) s quiet h =
        (query-Keeps env key (deactivating env user) (λ n u. refl)).at s h

    run-Spent :
        (actions : List Action) (s : Desk)
        → All (IsQuiet key) actions
        → Spent env key s
        → Spent env key (run env max_ttl actions s)
    unfolding run
    run-Spent [] s quiet h = h
    run-Spent (a ∷ actions) s (first, rest) h =
        run-Spent actions (act env max_ttl a s) rest (act-Spent a s first h)

module _ (env : Environment) (max_ttl : ℕ) where
  -- After a login that issued a session, and after whatever requests, logins with any signature among
  -- them, and housekeeping, as long as no challenge was asked for the same wallet, a login for the wallet,
  -- whatever its signature and its role, is refused, and it changes neither the profiles nor the sessions.
  pub login-once :
      (address signature address' signature' : String) (role role' : UserRole)
      (body body' : LoginBody) (between : List Action) (s : Desk) (reply : Reply)
      → checked_body body ≡ ok (address, signature, role)
      → checked_body body' ≡ ok (address', signature', role')
      → to_lower_case address' ≡ to_lower_case address
      → (login env max_ttl body s).0 ≡ ok reply
      → IsIssued reply
      → All (IsQuiet (to_lower_case (to_lower_case address))) between
      → let s' = run env max_ttl between (login env max_ttl body s).1 in
        ((login env max_ttl body' s').0
          ≡ ok (unauthorized "No active challenge for this wallet. Call GET /challenge first."))
        × ((login env max_ttl body' s').1.profiles ≡ s'.profiles)
        × ((login env max_ttl body' s').1.sessions ≡ s'.sessions)
  login-once address signature address' signature' role role' body body' between s reply fields
        fields' same done i quiet =
      let key = to_lower_case (to_lower_case address) in
      let first = (login env max_ttl body s).1 in
      let spent =
        issued_state env max_ttl _ key reply first done i
          ((login-Outcome env max_ttl address signature role body fields).at s tt) in
      let later = run-Spent env key max_ttl between first quiet spent in
      refuses env max_ttl address' signature' role' body' (run env max_ttl between first) fields'
        (rw same later)
