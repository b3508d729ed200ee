-- ===== src/Auth/Stores.antt =====
-- The challenge store, the profile store and the session store of auth/src/core.
use agroasys_web3layer.Prelude.{
  ℕ, suc, ◌+◌, ◌*◌, String, Option, none, some, List, [], ◌∷◌, leb, str_eq, if◌then◌else◌,
}
use agroasys_web3layer.Exec.{ok, pure, modify, ◌>>=◌, ◌>>◌}
use agroasys_web3layer.Auth.{
  UserRole, UserProfile, SessionIssueResult, Challenge, Environment, Effect, tick, now_seconds,
}
use agroasys_web3layer.Auth.Texts.{to_lower_case}
use agroasys_web3layer.Auth.Queries.{upsert_profile, find_profile_by_wallet, insert_session}

-- `store.get(key)`
abbrev pub entry : String → List (String × Challenge) → Option Challenge
entry k [] = none
entry k ((key, c) ∷ store) = if str_eq key k then some c else entry k store

-- `store.delete(key)`
abbrev pub remove : String → List (String × Challenge) → List (String × Challenge)
remove k [] = []
remove k ((key, c) ∷ store) =
    let rest = remove k store in if str_eq key k then rest else (key, c) ∷ rest

-- The entries that the timer leaves.
abbrev pub purged : ℕ → List (String × Challenge) → List (String × Challenge)
purged now [] = []
purged now ((key, c) ∷ store) =
    let rest = purged now store in if leb c.expires_at now then rest else (key, c) ∷ rest

unfoldable pub delete_challenge : String → Effect (Unit {0})
delete_challenge wallet =
    modify (λ s. record s { challenges = remove (to_lower_case wallet) s.challenges })

-- An entry that is over is dropped.
unfoldable pub usable : String → ℕ → Option Challenge → Effect (Option String)
unfolding delete_challenge
usable wallet now none = pure none
usable wallet now (some c) =
    if leb c.expires_at now then delete_challenge wallet >> pure none else pure (some c.nonce)

module _ (env : Environment) where
  unfoldable pub set_challenge : String → String → ℕ → Effect (Unit {0})
  set_challenge wallet nonce ttl_seconds s = (
    ok tt,
    record s {
      challenges =
          (
            to_lower_case wallet,
            record { nonce = nonce; expires_at = env.now s.moment + ttl_seconds * 1000 },
          )
          ∷ remove (to_lower_case wallet) s.challenges;
      moment = suc s.moment;
    },
  )

  unfoldable pub get_challenge_nonce : String → Effect (Option String)
  unfolding usable
  get_challenge_nonce wallet s =
      usable wallet (env.now s.moment) (entry (to_lower_case wallet) s.challenges)
        (record s { moment = suc s.moment })

  -- What the timer runs.
  unfoldable pub purge_challenges : Effect (Unit {0})
  purge_challenges s = (
    ok tt,
    record s { challenges = purged (env.now s.moment) s.challenges; moment = suc s.moment },
  )

  unfoldable pub upsert : String → UserRole → Option String → Effect UserProfile
  upsert wallet role org = upsert_profile env (to_lower_case wallet) role org

  find_by_wallet : String → Effect (Option UserProfile)
  find_by_wallet wallet = find_profile_by_wallet env (to_lower_case wallet)

  -- A fresh id of 32 bytes.
  unfoldable pub fresh_id : Effect String
  unfolding tick ◌>>=◌
  fresh_id = do n ← tick; pure (env.random_hex n 32)

  unfoldable pub issue : UserProfile → ℕ → Effect SessionIssueResult
  unfolding fresh_id now_seconds ◌>>=◌ insert_session
  issue profile ttl_seconds = do
    id ← fresh_id
    now ← now_seconds env
    insert_session env id profile (now + ttl_seconds)
    pure (record { session_id = id; expires_at = now + ttl_seconds })
