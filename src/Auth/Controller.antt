-- ===== src/Auth/Controller.antt =====
-- auth/src/api/controller.ts behind the middleware of auth/src/middleware/middleware.ts and the routes of
-- auth/src/api/routes.ts, with the housekeeping that other code may run between two requests. The
-- timestamp of a reply and the two health routes are left out.
use agroasys_web3layer.Prelude.{
  ℕ, min, max, String, Option, none, some, List, [], ◌∷◌, str_eq, if◌then◌else◌, ◌<>◌, is_empty,
  trim,
}
use agroasys_web3layer.Exec.{Result, ok, err, pure, catch, ◌>>=◌, ◌>>◌}
use agroasys_web3layer.Auth.{
  UserRole, buyer, supplier, admin, UserSession, SessionIssueResult, Environment, Desk, Effect,
  tick,
}
use agroasys_web3layer.Auth.Texts.{to_lower_case, is_wallet, strip_prefix}
use agroasys_web3layer.Auth.Queries.{deactivate_profile, revoke_session, prune_expired_sessions}
use agroasys_web3layer.Auth.Stores.{
  set_challenge, get_challenge_nonce, delete_challenge, purge_challenges,
}
use agroasys_web3layer.Auth.Service.{resolve_active, login_service, refresh_service}

pub data Reply : Type 0 where
  refused : ℕ → String → String → Reply
  -- the message to sign and its time in seconds
  challenged : String → ℕ → Reply
  issued : ℕ → SessionIssueResult → Reply
  revoked : Reply
  -- the user's id, wallet and role, with the times of the session
  current : String → String → UserRole → ℕ → ℕ → Reply

pub record LoginBody : Type 0 where
  pub wallet_address : Option String
  pub signature : Option String
  pub role : Option String
  pub org_id : Option String
  pub ttl_seconds : Option ℕ

abbrev challenge_ttl_seconds : ℕ
challenge_ttl_seconds = 300

-- The members of `VALID_ROLES`.
unfoldable pub valid_role : String → Option UserRole
valid_role role =
    if str_eq role "buyer"
    then some buyer
    else if str_eq role "supplier"
    then some supplier
    else if str_eq role "admin"
    then some admin
    else none

abbrev pub build_challenge_message : String → String → String
build_challenge_message wallet nonce =
    "Sign in to Agroasys\nWallet: " <> wallet <> "\nNonce: " <> nonce

abbrev pub bad_request : String → Reply
bad_request message = refused 400 "BadRequest" message

abbrev pub unauthorized : String → Reply
unauthorized message = refused 401 "Unauthorized" message

-- `!text`: a field that is missing or the empty text.
abbrev pub given : Option String → Option String
given none = none
given (some text) = if is_empty text then none else some text

abbrev given_wallet : Option String → Option String
given_wallet none = none
given_wallet (some wallet) = if is_wallet wallet then some wallet else none

abbrev given_role : Option String → Option UserRole
given_role none = none
given_role (some role) = valid_role role

-- The fields that the login needs, or the reply that refuses the body.
abbrev pub checked_body : LoginBody → Result Reply (String × String × UserRole)
checked_body body = elim (given_wallet body.wallet_address) [
  | none ↦ err (bad_request "Valid walletAddress is required")
  | some wallet ↦ elim (given body.signature) [
    | none ↦ err (bad_request "signature is required — call GET /challenge first")
    | some signature ↦ elim (given_role body.role) [
      | none ↦ err (bad_request "role must be one of: buyer, supplier, admin")
      | some role ↦ ok (wallet, signature, role)
    ]
  ]
]

-- The token after `Bearer `, or the reply that refuses the header.
unfoldable pub bearer : Option String → Result Reply String
bearer none = err (unauthorized "Missing or malformed Authorization header")
bearer (some header) = elim (strip_prefix "Bearer " header) [
  | none ↦ err (unauthorized "Missing or malformed Authorization header")
  | some token ↦
      if is_empty (trim token) then err (unauthorized "Empty session token") else ok (trim token)
]

module _ (env : Environment) where
  abbrev challenge_wallet : String → Effect Reply
  challenge_wallet wallet = do
    nonce ← (λ s. (ok (env.random_hex s.moment 16), (tick s).1))
    set_challenge env wallet nonce challenge_ttl_seconds
    pure (challenged (build_challenge_message wallet nonce) challenge_ttl_seconds)

  unfoldable pub get_challenge : Option String → Effect Reply
  get_challenge none = pure (bad_request "Valid wallet address required (?wallet=0x...)")
  get_challenge (some wallet) =
      if is_wallet (to_lower_case wallet)
      then challenge_wallet (to_lower_case wallet)
      else pure (bad_request "Valid wallet address required (?wallet=0x...)")

  -- `Math.max(1, Math.min(ttlSeconds, this.maxSessionTtlSeconds))`, where a number is given
  abbrev pub safe_ttl : ℕ → Option ℕ → Option ℕ
  safe_ttl max_ttl none = none
  safe_ttl max_ttl (some ttl) = some (max 1 (min ttl max_ttl))

  -- What is wrong with the signer that the signature gave: the text of a refusal.
  unfoldable pub recovery_error : String → Option String → Option String
  recovery_error wallet none = some "Invalid signature format"
  recovery_error wallet (some recovered) =
      if str_eq (to_lower_case recovered) wallet then none else some "Signature verification failed"

  unfoldable pub signature_error : String → String → String → Option String
  unfolding recovery_error
  signature_error wallet nonce signature =
      recovery_error wallet (env.verify_message (build_challenge_message wallet nonce) signature)

  module _ (max_ttl : ℕ) where
    unfoldable pub open_session : String → UserRole → Option String → Option ℕ → Effect Reply
    open_session wallet role org ttl =
        catch
          (login_service env wallet role org (safe_ttl max_ttl ttl) >>= λ result.
            pure (issued 201 result))
          (λ e. pure (refused 403 "Forbidden" e))

    -- The login of a signature that is checked.
    unfoldable pub consume : String → UserRole → LoginBody → Option String → Effect Reply
    unfolding open_session
    consume wallet role body (some e) = pure (unauthorized e)
    consume wallet role body none =
        delete_challenge wallet >> open_session wallet role body.org_id body.ttl_seconds

    unfoldable pub with_nonce :
        String → String → UserRole → LoginBody → Option String → Effect Reply
    unfolding consume signature_error
    with_nonce wallet signature role body none =
        pure (unauthorized "No active challenge for this wallet. Call GET /challenge first.")
    with_nonce wallet signature role body (some nonce) =
        consume wallet role body (signature_error wallet nonce signature)

    unfoldable pub login_checked : String × String × UserRole → LoginBody → Effect Reply
    unfolding with_nonce ◌>>=◌
    login_checked (address, signature, role) body =
        get_challenge_nonce env (to_lower_case address) >>= λ nonce.
        with_nonce (to_lower_case address) signature role body (given nonce)

    unfoldable pub login_fields :
        LoginBody → Result Reply (String × String × UserRole) → Effect Reply
    unfolding login_checked
    login_fields body (err reply) = pure reply
    login_fields body (ok fields) = login_checked fields body

    unfoldable pub login : LoginBody → Effect Reply
    unfolding login_fields
    login body = login_fields body (checked_body body)

  unfoldable pub get_session : UserSession → Effect Reply
  get_session session = pure (
      current session.user_id session.wallet_address session.role session.issued_at
        session.expires_at)

  unfoldable pub refresh : UserSession → Effect Reply
  refresh session =
      catch (refresh_service env session.session_id none >>= λ result. pure (issued 200 result))
        (λ e. pure (unauthorized e))

  unfoldable pub revoke : UserSession → Effect Reply
  unfolding ◌>>=◌
  revoke session = revoke_session env session.session_id >> pure revoked

  abbrev pub attach : (UserSession → Effect Reply) → Option UserSession → Effect Reply
  attach next none = pure (unauthorized "Session invalid, expired, or revoked")
  attach next (some session) = next session

  unfoldable pub with_token : (UserSession → Effect Reply) → Result Reply String → Effect Reply
  unfolding ◌>>=◌
  with_token next (err reply) = pure reply
  with_token next (ok id) = catch (resolve_active env id) (λ e. pure none) >>= attach next

  -- The session middleware in front of a handler.
  unfoldable pub with_session : Option String → (UserSession → Effect Reply) → Effect Reply
  unfolding with_token
  with_session header next = with_token next (bearer header)

  -- `asyncHandler` hands a throw to `errorHandler`.
  unfoldable pub handled : Effect Reply → Effect Reply
  handled m = catch m (λ e. pure (refused 500 "InternalServerError" "An unexpected error occurred"))

pub data Request : Type 0 where
  challenge_request : Option String → Request
  login_request : LoginBody → Request
  -- the `Authorization` header
  session_request refresh_request revoke_request : Option String → Request

module _ (env : Environment) (max_ttl : ℕ) where
  unfoldable pub serve : Request → Effect Reply
  unfolding get_challenge login get_session refresh revoke with_session handled
  serve (challenge_request wallet) = handled env (get_challenge env wallet)
  serve (login_request body) = handled env (login env max_ttl body)
  serve (session_request header) = handled env (with_session env header (get_session env))
  serve (refresh_request header) = handled env (with_session env header (refresh env))
  serve (revoke_request header) = handled env (with_session env header (revoke env))

-- A request, or what else changes the state.
pub data Action : Type 0 where
  request : Request → Action
  purge prune : Action
  deactivate : String → Action

module _ (env : Environment) (max_ttl : ℕ) where
  unfoldable pub act : Action → Desk → Desk
  unfolding serve
  act (request r) s = (serve env max_ttl r s).1
  act purge s = (purge_challenges env s).1
  act prune s = (prune_expired_sessions env s).1
  act (deactivate id) s = (deactivate_profile env id s).1

  unfoldable pub run : List Action → Desk → Desk
  unfolding act
  run [] s = s
  run (a ∷ actions) s = run actions (act a s)
