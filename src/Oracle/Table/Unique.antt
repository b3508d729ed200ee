-- ===== src/Oracle/Table/Unique.antt =====
-- The constraints of the trigger table, and the changes of one row.
use agroasys_web3layer.Prelude.{
  ◌≡◌, ◌≢◌, refl, sym, String, not, ◌&&◌, true, false, some, List, [], ◌∷◌, any, find, All, arith,
  eq_iff, Bool-cases, inl, inr,
}
use agroasys_web3layer.Oracle.Types.{Trigger}
use agroasys_web3layer.Oracle.Table.{is_active, has_key, is_active_for, set_row}

-- No row of the list has the key.
abbrev pub IsFresh : String → List Trigger → Type 0
IsFresh k = All (λ t. t.idempotency_key ≢ k)

abbrev pub DistinctKeys : List Trigger → Type 0
DistinctKeys [] = Unit {0}
DistinctKeys (t ∷ ts) = IsFresh t.idempotency_key ts × DistinctKeys ts

-- No active row of the list is for the action.
abbrev pub IsIdle : String → List Trigger → Type 0
IsIdle a = All (λ t. is_active t.status ≡ true → t.action_key ≢ a)

abbrev pub OneActive : List Trigger → Type 0
OneActive [] = Unit {0}
OneActive (t ∷ ts) = (is_active t.status ≡ true → IsIdle t.action_key ts) × OneActive ts

pub record IsUnique (rows : List Trigger) : Type 0 where
  pub keys : DistinctKeys rows
  pub actions : OneActive rows

pub any-IsFresh : (k : String) (rows : List Trigger) → any (has_key k) rows ≡ false → IsFresh k rows
any-IsFresh k [] h = tt
any-IsFresh k (t ∷ ts) h =
    (λ e. ground (arith, eq_iff t.idempotency_key k), any-IsFresh k ts (ground arith))

pub any-IsIdle :
    (a : String) (rows : List Trigger) → any (is_active_for a) rows ≡ false → IsIdle a rows
any-IsIdle a [] h = tt
any-IsIdle a (t ∷ ts) h =
    (λ act e. ground (arith, eq_iff t.action_key a), any-IsIdle a ts (ground arith))

-- Rows of other keys that are active are for other actions.
abbrev pub NoOther : String → String → List Trigger → Type 0
NoOther k a = All (λ t. t.idempotency_key ≢ k → is_active t.status ≡ true → t.action_key ≢ a)

pub any-NoOther :
    (k a : String) (rows : List Trigger)
    → any (λ t. not (has_key k t) && is_active_for a t) rows ≡ false
    → NoOther k a rows
any-NoOther k a [] h = tt
any-NoOther k a (t ∷ ts) h = (
  λ n act e. ground (arith, eq_iff t.action_key a, eq_iff t.idempotency_key k),
  any-NoOther k a ts (ground arith),
)

-- An update of one row keeps the columns that identify it.
pub record KeepsIdentity (f : Trigger → Trigger) : Type 0 where
  pub same_key : (t : Trigger) → (f t).idempotency_key ≡ t.idempotency_key
  pub same_action : (t : Trigger) → (f t).action_key ≡ t.action_key

module _ (f : Trigger → Trigger) (same : KeepsIdentity f) (k : String) where
  set_row-IsFresh :
      (j : String) (rows : List Trigger) → IsFresh j rows → IsFresh j (set_row f k rows)
  unfolding set_row
  set_row-IsFresh j [] h = tt
  set_row-IsFresh j (t ∷ ts) h = (ground (arith, same.same_key t, h.0), set_row-IsFresh j ts h.1)

  pub set_row-DistinctKeys :
      (rows : List Trigger) → DistinctKeys rows → DistinctKeys (set_row f k rows)
  unfolding set_row
  set_row-DistinctKeys [] h = tt
  set_row-DistinctKeys (t ∷ ts) h = (
    ground (arith, same.same_key t, set_row-IsFresh t.idempotency_key ts h.0),
    set_row-DistinctKeys ts h.1,
  )

  set_row_fresh : (rows : List Trigger) → IsFresh k rows → set_row f k rows ≡ rows
  unfolding set_row
  set_row_fresh [] h = refl
  set_row_fresh (t ∷ ts) h = ground (arith, h.0, eq_iff t.idempotency_key k, set_row_fresh ts h.1)

  -- The one row of the key is set: the list before it and after it stays.
  set_row-IsIdle :
      (c : String) (t : Trigger) (rows : List Trigger)
      → DistinctKeys rows
      → find (has_key k) rows ≡ some t
      → (is_active (f t).status ≡ true → t.action_key ≢ c)
      → IsIdle c rows
      → IsIdle c (set_row f k rows)
  unfolding set_row
  set_row-IsIdle c t [] d e q h = tt
  set_row-IsIdle c t (u ∷ us) d e q h = elim (Bool-cases (has_key k u)) [
    | inl hit ↦
        let key : u.idempotency_key ≡ k = (eq_iff u.idempotency_key k).0 hit in
        let fresh : IsFresh k us = rw (← key) d.0 in
        let u-t : u ≡ t = ground (arith, hit) in
        rw (hit, set_row_fresh us fresh) (λ act e'. ground (arith, same.same_action u, q, u-t), h.1)
    | inr miss ↦ rw miss (h.0, set_row-IsIdle c t us d.1 (ground (arith, miss)) q h.1)
  ]

  NoOther-IsIdle :
      (a : String) (rows : List Trigger) → NoOther k a rows → IsFresh k rows → IsIdle a rows
  NoOther-IsIdle a [] n h = tt
  NoOther-IsIdle a (t ∷ ts) n h = (n.0 h.0, NoOther-IsIdle a ts n.1 h.1)

  pub set_row-OneActive :
      (t : Trigger) (rows : List Trigger)
      → DistinctKeys rows
      → find (has_key k) rows ≡ some t
      → (is_active (f t).status ≡ true → NoOther k t.action_key rows)
      → OneActive rows
      → OneActive (set_row f k rows)
  unfolding set_row
  set_row-OneActive t [] d e q h = tt
  set_row-OneActive t (u ∷ us) d e q h = elim (Bool-cases (has_key k u)) [
    | inl hit ↦
        let key : u.idempotency_key ≡ k = (eq_iff u.idempotency_key k).0 hit in
        let fresh : IsFresh k us = rw (← key) d.0 in
        let u-t : u ≡ t = ground (arith, hit) in
        rw (hit, set_row_fresh us fresh)
          (
            λ act.
                rw (same.same_action u, u-t)
                  (NoOther-IsIdle t.action_key us (q (rw (← u-t) act)).1 fresh),
            h.1,
          )
    | inr miss ↦
        let other : u.idempotency_key ≢ k = λ p. ground (arith, eq_iff u.idempotency_key k) in
        rw miss (
          λ act.
              set_row-IsIdle u.action_key t us d.1 (ground (arith, miss))
                (λ act' p. (q act').0 other act (sym p)) (h.0 act),
          set_row-OneActive t us d.1 (ground (arith, miss)) (λ act. (q act).1) h.1,
        )
  ]
