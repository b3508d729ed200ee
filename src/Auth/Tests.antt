-- ===== src/Auth/Tests.antt =====
-- A wallet that logs in, and a session that is revoked or refreshed.
use agroasys_web3layer.Prelude.{
  String, true, ◌≡◌, ◌≢◌, ◌↔◌, if◌then◌else◌, refl, inl, none, some, List, [], ◌∷◌, arith, decimal,
  str_eq, eq_iff,
}
use agroasys_web3layer.Exec.{ok, catch, modify}
use agroasys_web3layer.Auth.{buyer, UserProfile, UserSession, number, text, Environment, Desk}
use agroasys_web3layer.Auth.Texts.{to_lower_case, is_wallet}
use agroasys_web3layer.Auth.Queries.{
  parse_session_epoch, revoke_session, normalize_session_row, find_session_by_id,
  find_profile_by_id, upsert_profile,
}
use agroasys_web3layer.Auth.Stores.{issue, upsert, get_challenge_nonce}
use agroasys_web3layer.Auth.Service.{resolve_active, refresh_service, login_service}
use agroasys_web3layer.Auth.Controller.{
  LoginBody, issued, unauthorized, valid_role, login, challenge_request, login_request, Action,
  request, purge, prune, session_request, run,
}
use agroasys_web3layer.Auth.Epochs.{parse_session_epoch-roundtrip}
use agroasys_web3layer.Auth.Resolve.{IsInForce, resolve_active_iff}
use agroasys_web3layer.Auth.Revoked.Forever.{revoke-forever, refresh-forever}
use agroasys_web3layer.Auth.Login.Later.{IsQuiet, login-once}
use agroasys_web3layer.Auth.Login.Signed.{IsSigned, login-IsSigned}

abbrev wallet : String
wallet = "0x00000000000000000000000000000000000000ab"

-- The clock stands at second 1000, and the signature "good" is the wallet's.
abbrev calm : Environment
calm = record {
  query_fault = λ n. none;
  now = λ n. 1000000;
  random_hex = λ n bytes. "b1";
  random_uuid = λ n. "u2";
  from_bigint = number;
  verify_message = λ message signature. if str_eq signature "good" then some wallet else none;
}

abbrev profile : UserProfile
profile = record {
  id = "u1";
  wallet_address = wallet;
  role = buyer;
  org_id = none;
  created_at = 1;
  updated_at = 1;
  active = true;
}

abbrev session : UserSession
session = record {
  session_id = "a1";
  user_id = "u1";
  wallet_address = wallet;
  role = buyer;
  issued_at = 900;
  expires_at = 4500;
  revoked_at = none;
}

abbrev desk : Desk
desk = record {
  challenges = (wallet, record { nonce = "n1"; expires_at = 1200000 }) ∷ [];
  profiles = profile ∷ [];
  sessions = session ∷ [];
  moment = 7;
}

abbrev body : LoginBody
body = record {
  wallet_address = some "0x00000000000000000000000000000000000000AB";
  signature = some "good";
  role = some "buyer";
  org_id = none;
  ttl_seconds = some 600;
}

differs : ◌≢◌ {A = String} "b1" "a1"
differs e = let held = (eq_iff "b1" "a1").1 e in cc

parse_session_epoch-roundtrip_example :
    parse_session_epoch (text (decimal 1753)) "issuedAt" ≡ ok 1753
parse_session_epoch-roundtrip_example =
    ((parse_session_epoch-roundtrip 1753 "issuedAt").0 (omega arith)).1

resolve_active_iff_example :
    ((resolve_active calm "a1" desk).0 ≡ ok (some session))
    ↔ IsInForce calm session (some session) 8
resolve_active_iff_example =
    resolve_active_iff calm (λ n. refl) (λ n. inl refl) "a1" session desk
      ((omega arith, omega arith, tt), tt)

revoke-forever_example :
    (resolve_active calm "a1" (
      run calm 86400
        (request (session_request (some "Bearer a1")) ∷ purge ∷ prune ∷ [])
        (revoke_session calm "a1" desk).1)).0
    ≢ ok (some session)
unfolding revoke_session
revoke-forever_example =
    revoke-forever calm "a1" 86400 desk
      (request (session_request (some "Bearer a1")) ∷ purge ∷ prune ∷ []) session refl
      (λ n h. differs)

refresh-forever_example :
    (resolve_active calm "a1"
      (run calm 86400 (purge ∷ prune ∷ []) (refresh_service calm "a1" none desk).1)).0
    ≢ ok (some session)
unfolding refresh_service find_session_by_id normalize_session_row parse_session_epoch
    find_profile_by_id issue revoke_session
refresh-forever_example =
    refresh-forever calm "a1" 86400 none desk (record { session_id = "b1"; expires_at = 4600 })
      (purge ∷ prune ∷ []) session refl (λ n h. differs)

-- A failed try, a challenge for another wallet, and housekeeping.
abbrev meanwhile : List Action
meanwhile =
    request (login_request (record body { role = some "seller" }))
    ∷ request (challenge_request (some "0x00000000000000000000000000000000000000cd"))
    ∷ purge
    ∷ []

login-once_example :
    let s' = run calm 86400 meanwhile (login calm 86400 body desk).1 in
    ((login calm 86400 (record body { role = some "admin" }) s').0
      ≡ ok (unauthorized "No active challenge for this wallet. Call GET /challenge first."))
    × ((login calm 86400 (record body { role = some "admin" }) s').1.profiles ≡ s'.profiles)
    × ((login calm 86400 (record body { role = some "admin" }) s').1.sessions ≡ s'.sessions)
unfolding is_wallet valid_role login get_challenge_nonce to_lower_case modify catch login_service
    upsert upsert_profile issue IsQuiet
login-once_example =
    login-once calm 86400 _ _ _ _ _ _ body (record body { role = some "admin" }) meanwhile desk _
      refl refl refl refl tt (tt, (refl, (tt, tt)))

login-IsSigned_example : IsSigned calm 86400 wallet "good" desk
unfolding is_wallet valid_role login get_challenge_nonce to_lower_case modify catch login_service
    upsert upsert_profile issue
login-IsSigned_example =
    login-IsSigned calm 86400 "0x00000000000000000000000000000000000000AB" "good" buyer body desk
      (issued 201 (record { session_id = "b1"; expires_at = 1600 })) refl refl tt
