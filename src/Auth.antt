-- ===== src/Auth.antt =====
-- auth/src: the login by a wallet's signature and the sessions of the platform. This file has the types
-- of auth/src/types.ts, the tables of auth/src/database/schema.sql and the state that the requests share.
pub mod Texts
pub mod Queries
pub mod Epochs
pub mod Login
pub mod Resolve
pub mod Requests
pub mod Revoked
pub mod Stores
pub mod Service
pub mod Controller
mod Tests
use agroasys_web3layer.Prelude.{ℕ, suc, String, Bool, Option, none, some, List, ◌/◌}
use agroasys_web3layer.Exec.{Result, ok, err, Exec, pure, ◌>>=◌}

pub data UserRole : Type 0 where
  buyer supplier admin oracle : UserRole

pub record UserProfile : Type 0 where
  pub id : String
  pub wallet_address : String
  pub role : UserRole
  pub org_id : Option String
  pub created_at : ℕ
  pub updated_at : ℕ
  pub active : Bool

pub record UserSession : Type 0 where
  pub session_id : String
  pub user_id : String
  pub wallet_address : String
  pub role : UserRole
  pub issued_at : ℕ
  pub expires_at : ℕ
  pub revoked_at : Option ℕ

pub record SessionIssueResult : Type 0 where
  pub session_id : String
  pub expires_at : ℕ

-- An entry of the challenge store; its time is in milliseconds.
pub record Challenge : Type 0 where
  pub nonce : String
  pub expires_at : ℕ

-- A number as the database's driver hands it over.
pub data Epoch : Type 0 where
  number : ℕ → Epoch
  text : String → Epoch

-- Each field but the last two is asked at a moment.
pub record Environment : Type 0 where
  -- the database is out of reach, with the error's text
  pub query_fault : ℕ → Option String
  -- `Date.now()`, in milliseconds
  pub now : ℕ → ℕ
  -- `crypto.randomBytes(bytes).toString('hex')`
  pub random_hex : ℕ → ℕ → String
  -- `gen_random_uuid()`
  pub random_uuid : ℕ → String
  -- how the driver hands a BIGINT over
  pub from_bigint : ℕ → Epoch
  -- `verifyMessage(message, signature)` of ethers, which may throw
  pub verify_message : String → String → Option String

pub record Desk : Type 0 where
  -- the map of the challenge store: the newest entry of a wallet stands first
  pub challenges : List (String × Challenge)
  pub profiles : List UserProfile
  pub sessions : List UserSession
  pub moment : ℕ

abbrev pub Effect : Type 0 → Type 0
Effect A = Exec Desk String A

-- The next moment.
unfoldable pub tick : Effect ℕ
tick s = (ok s.moment, record s { moment = suc s.moment })

module _ (env : Environment) where
  -- `Math.floor(Date.now() / 1000)`
  unfoldable pub now_seconds : Effect ℕ
  unfolding tick ◌>>=◌
  now_seconds = do n ← tick; pure (env.now n / 1000)
