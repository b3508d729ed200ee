-- ===== src/Auth/Queries.antt =====
-- The statements of auth/src/database/queries.ts. The newest row stands first. An error of the database
-- is the text of what is thrown.
use agroasys_web3layer.Prelude.{
  ℕ, suc, ◌<>◌, ◌&&◌, not, String, Bool, true, false, Option, none, some, List, [], ◌∷◌, map, find,
  any, is_empty, leb, all_digits, parse_int, str_eq, if◌then◌else◌,
}
use agroasys_web3layer.Exec.{Result, ok, err, ◌>>=◌}
use agroasys_web3layer.Auth.{
  UserRole, UserProfile, UserSession, Epoch, number, text, Environment, Desk, Effect, now_seconds,
}

-- `Number.isSafeInteger`
abbrev pub is_safe_integer : ℕ → Bool
is_safe_integer n = leb n 9007199254740991

abbrev pub invalid_timestamp : String → String
invalid_timestamp field = "Invalid " <> field <> " session timestamp returned from database"

unfoldable pub parse_session_epoch : Epoch → String → Result String ℕ
parse_session_epoch (number n) field =
    if is_safe_integer n then ok n else err (invalid_timestamp field)
parse_session_epoch (text digits) field =
    if not (is_empty digits) && all_digits digits && is_safe_integer (parse_int 0 digits)
    then ok (parse_int 0 digits)
    else err (invalid_timestamp field)

-- A row of `user_sessions` as the driver returns it.
pub record SessionRow : Type 0 where
  pub session_id : String
  pub user_id : String
  pub wallet_address : String
  pub role : UserRole
  pub issued_at : Epoch
  pub expires_at : Epoch
  pub revoked_at : Option Epoch

abbrev pub and_then {ℓ κ} :
    {A : Type ℓ} {B : Type κ} → Result String A → (A → Result String B) → Result String B
and_then (ok a) f = f a
and_then (err e) f = err e

abbrev pub parse_nullable : Option Epoch → Result String (Option ℕ)
parse_nullable none = ok none
parse_nullable (some e) = and_then (parse_session_epoch e "revokedAt") (λ n. ok (some n))

abbrev pub session_of : SessionRow → ℕ → ℕ → Option ℕ → UserSession
session_of row issued expires revoked = record {
  session_id = row.session_id;
  user_id = row.user_id;
  wallet_address = row.wallet_address;
  role = row.role;
  issued_at = issued;
  expires_at = expires;
  revoked_at = revoked;
}

unfoldable pub normalize_session_row : SessionRow → Result String UserSession
normalize_session_row row = and_then (parse_session_epoch row.issued_at "issuedAt") (λ issued.
    and_then (parse_session_epoch row.expires_at "expiresAt") (λ expires.
      and_then (parse_nullable row.revoked_at)
        (λ revoked. ok (session_of row issued expires revoked))))

abbrev keep_org : Option String → Option String → Option String
keep_org none old = old
keep_org (some org) old = some org

-- The `INSERT … ON CONFLICT (wallet_address) DO UPDATE`, with the row it returns.
abbrev pub upsert_rows :
    String
    → ℕ
    → String
    → UserRole
    → Option String
    → List UserProfile
    → UserProfile × List UserProfile
upsert_rows id now wallet role org rows = elim (find (λ p. str_eq p.wallet_address wallet) rows) [
  | none ↦
      (let made : UserProfile = record {
        id = id;
        wallet_address = wallet;
        role = role;
        org_id = org;
        created_at = now;
        updated_at = now;
        active = true;
      } in
        (made, made ∷ rows))
  | some old ↦
      (let made : UserProfile = record old {
        role = role;
        org_id = keep_org org old.org_id;
        updated_at = now;
      } in
        (made, map (λ p. if str_eq p.wallet_address wallet then made else p) rows))
]

abbrev pub has_id : String → UserSession → Bool
has_id id s = str_eq s.session_id id

abbrev pub revoked_row : String → ℕ → UserSession → UserSession
revoked_row id now s = if has_id id s then record s { revoked_at = some now } else s

-- `DELETE FROM user_sessions WHERE expires_at <= $1`
abbrev pub live_rows : ℕ → List UserSession → List UserSession
live_rows now [] = []
live_rows now (s ∷ rows) =
    let rest = live_rows now rows in if leb s.expires_at now then rest else s ∷ rest

abbrev pub unless_down :
    {A : Type 0} → Option String → Result String A × Desk → Desk → Result String A × Desk
unless_down none answer s = answer
unless_down (some e) answer s = (err e, s)

module _ (env : Environment) where
  -- One statement of `pool.query`, at its own moment.
  unfoldable pub query : {A : Type 0} → (ℕ → Desk → Result String A × Desk) → Effect A
  query statement s =
      unless_down (env.query_fault s.moment)
        (statement s.moment (record s { moment = suc s.moment }))
        (record s { moment = suc s.moment })

  abbrev pub upserting :
      String → UserRole → Option String → ℕ → Desk → Result String UserProfile × Desk
  upserting wallet role org n s =
      let (profile, rows) =
        upsert_rows (env.random_uuid n) (env.now n) wallet role org s.profiles in
      (ok profile, record s { profiles = rows })

  unfoldable pub upsert_profile : String → UserRole → Option String → Effect UserProfile
  unfolding query
  upsert_profile wallet role org = query (upserting wallet role org)

  abbrev pub profile_where :
      (UserProfile → Bool) → ℕ → Desk → Result String (Option UserProfile) × Desk
  profile_where test n s = (ok (find test s.profiles), s)

  unfoldable pub find_profile_by_wallet : String → Effect (Option UserProfile)
  unfolding query
  find_profile_by_wallet wallet = query (profile_where (λ p. str_eq p.wallet_address wallet))

  unfoldable pub find_profile_by_id : String → Effect (Option UserProfile)
  unfolding query
  find_profile_by_id id = query (profile_where (λ p. str_eq p.id id))

  abbrev pub deactivated : String → ℕ → UserProfile → UserProfile
  deactivated id now p = if str_eq p.id id then record p { active = false; updated_at = now } else p

  abbrev pub deactivating : String → ℕ → Desk → Result String (Unit {0}) × Desk
  deactivating id n s = (ok tt, record s { profiles = map (deactivated id (env.now n)) s.profiles })

  unfoldable pub deactivate_profile : String → Effect (Unit {0})
  unfolding query
  deactivate_profile id = query (deactivating id)

  -- The insertion fails on a session id that is taken.
  abbrev pub inserting : UserSession → ℕ → Desk → Result String (Unit {0}) × Desk
  inserting row n s =
      if any (has_id row.session_id) s.sessions
      then (err "duplicate key value violates unique constraint \"user_sessions_pkey\"", s)
      else (ok tt, record s { sessions = row ∷ s.sessions })

  unfoldable pub insert_session_row : UserSession → Effect (Unit {0})
  unfolding query
  insert_session_row row = query (inserting row)

  abbrev pub new_row : String → UserProfile → ℕ → ℕ → UserSession
  new_row id profile expires_at now = record {
    session_id = id;
    user_id = profile.id;
    wallet_address = profile.wallet_address;
    role = profile.role;
    issued_at = now;
    expires_at = expires_at;
    revoked_at = none;
  }

  unfoldable pub insert_session : String → UserProfile → ℕ → Effect (Unit {0})
  unfolding insert_session_row now_seconds ◌>>=◌
  insert_session id profile expires_at = do
    now ← now_seconds env
    insert_session_row (new_row id profile expires_at now)

  abbrev pub nullable : Option ℕ → Option Epoch
  nullable none = none
  nullable (some n) = some (env.from_bigint n)

  abbrev pub row_of : UserSession → SessionRow
  row_of s = record {
    session_id = s.session_id;
    user_id = s.user_id;
    wallet_address = s.wallet_address;
    role = s.role;
    issued_at = env.from_bigint s.issued_at;
    expires_at = env.from_bigint s.expires_at;
    revoked_at = nullable s.revoked_at;
  }

  abbrev pub normalized : Option UserSession → Result String (Option UserSession)
  normalized none = ok none
  normalized (some s) = and_then (normalize_session_row (row_of s)) (λ session. ok (some session))

  abbrev pub session_where : String → ℕ → Desk → Result String (Option UserSession) × Desk
  session_where id n s = (normalized (find (has_id id) s.sessions), s)

  unfoldable pub find_session_by_id : String → Effect (Option UserSession)
  unfolding query
  find_session_by_id id = query (session_where id)

  abbrev pub revoking : String → ℕ → ℕ → Desk → Result String (Unit {0}) × Desk
  revoking id now n s = (ok tt, record s { sessions = map (revoked_row id now) s.sessions })

  unfoldable pub update_revoked : String → ℕ → Effect (Unit {0})
  unfolding query
  update_revoked id now = query (revoking id now)

  unfoldable pub revoke_session : String → Effect (Unit {0})
  unfolding update_revoked now_seconds ◌>>=◌
  revoke_session id = do now ← now_seconds env; update_revoked id now

  abbrev pub deleting : ℕ → ℕ → Desk → Result String (Unit {0}) × Desk
  deleting now n s = (ok tt, record s { sessions = live_rows now s.sessions })

  unfoldable pub delete_expired : ℕ → Effect (Unit {0})
  unfolding query
  delete_expired now = query (deleting now)

  unfoldable pub prune_expired_sessions : Effect (Unit {0})
  unfolding delete_expired now_seconds ◌>>=◌
  prune_expired_sessions = do now ← now_seconds env; delete_expired now
