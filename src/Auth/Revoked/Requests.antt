-- ===== src/Auth/Revoked/Requests.antt =====
-- What the requests of auth/src do to a revoked session.
use agroasys_web3layer.Prelude.{ℕ, ◌≤◌, String, ◌≢◌, Option, none, some, List, [], ◌∷◌, arith}
use agroasys_web3layer.Exec.Keeps.{Keeps, Keeps-pure, Keeps-if, Keeps-bind, Keeps-modify}
use agroasys_web3layer.Auth.{Environment, Desk, tick}
use agroasys_web3layer.Auth.Stores.{delete_challenge, set_challenge, purge_challenges}
use agroasys_web3layer.Auth.Controller.{
  Request, challenge_request, login_request, session_request, refresh_request, revoke_request,
  Action, request, purge, prune, deactivate, get_challenge, act, run,
}
use agroasys_web3layer.Auth.Revoked.{
  P, now_seconds-Keeps, upsert_profile-Keeps, find_profile_by_id-Keeps, deactivate_profile-Keeps,
  find_session_by_id-Keeps, revoke_session-Keeps, prune_expired_sessions-Keeps, issue-Keeps,
}
use agroasys_web3layer.Auth.Requests.{Base, IsAsked, serve-Keeps}

module _ (env : Environment) (id : String) (k : ℕ)
    (fresh : (n : ℕ) → k ≤ n → env.random_hex n 32 ≢ id) where
  revoked_base : Base env (P env id k)
  unfolding delete_challenge
  revoked_base = record {
    keeps_moment = λ s (late, rows). (omega (arith, late), rows);
    keeps_now_seconds = now_seconds-Keeps env id k;
    keeps_upsert_profile = upsert_profile-Keeps env id k;
    keeps_find_profile_by_id = find_profile_by_id-Keeps env id k;
    keeps_find_session_by_id = find_session_by_id-Keeps env id k;
    keeps_revoke_session = revoke_session-Keeps env id k;
    keeps_issue = issue-Keeps env id k fresh;
    keeps_delete_challenge = λ wallet. Keeps-modify _ (λ s p. p);
  }

  get_challenge-Keeps : (wallet : Option String) → Keeps (P env id k) (get_challenge env wallet)
  unfolding get_challenge tick set_challenge
  get_challenge-Keeps none = Keeps-pure _
  get_challenge-Keeps (some wallet) =
      Keeps-if _ _ _
        (Keeps-bind _ _ (record { at = λ s (late, rows). (omega (arith, late), rows) })
          (λ nonce.
            Keeps-bind _ _ (record { at = λ s (late, rows). (omega (arith, late), rows) })
              (λ _. Keeps-pure _)))
        (Keeps-pure _)

  asked : (r : Request) → IsAsked env (P env id k) revoked_base r
  asked (challenge_request wallet) = get_challenge-Keeps wallet
  asked (login_request body) = tt
  asked (session_request header) = tt
  asked (refresh_request header) = tt
  asked (revoke_request header) = tt

  act-keeps :
      (max_ttl : ℕ) (a : Action) (s : Desk) → P env id k s → P env id k (act env max_ttl a s)
  unfolding act purge_challenges
  act-keeps max_ttl (request r) s p =
      (serve-Keeps env (P env id k) revoked_base max_ttl r (asked r)).at s p
  act-keeps max_ttl purge s (late, rows) = (omega (arith, late), rows)
  act-keeps max_ttl prune s p = (prune_expired_sessions-Keeps env id k).at s p
  act-keeps max_ttl (deactivate user) s p = (deactivate_profile-Keeps env id k user).at s p

  pub run-keeps :
      (max_ttl : ℕ) (actions : List Action) (s : Desk)
      → P env id k s
      → P env id k (run env max_ttl actions s)
  unfolding run
  run-keeps max_ttl [] s p = p
  run-keeps max_ttl (a ∷ actions) s p = run-keeps max_ttl actions _ (act-keeps max_ttl a s p)
