-- ===== src/Oracle/Table/Statements.antt =====
-- The constraints of the trigger table and the statements of oracle/src/database/queries.ts.
use agroasys_web3layer.Prelude.{
  ◌≡◌, refl, ℕ, String, Bool, true, false, Option, List, arith, Bool-cases, Option-cases, inl, inr,
}
use agroasys_web3layer.Exec.{Result, ok, err}
use agroasys_web3layer.Oracle.Types.{Trigger, CreateTriggerData, UpdateTriggerData}
use agroasys_web3layer.Oracle.Errors.{JsError}
use agroasys_web3layer.Oracle.Table.{
  Table, is_active, insert_row, row_by_key, conflicts, update_row, always, awaits_approval,
  apply_update, approve_change, reject_change, update_trigger_row, approve_row, reject_row,
}
use agroasys_web3layer.Oracle.Table.Unique.{
  IsUnique, KeepsIdentity, NoOther, any-IsFresh, any-IsIdle, any-NoOther, set_row-DistinctKeys,
  set_row-OneActive,
}

-- The rows after a statement, which keeps them where it is refused.
abbrev pub rows_after {ℓ} : {A : Type ℓ} → Result JsError (A × Table) → List Trigger → List Trigger
rows_after (ok (a, table)) rows = table.rows
rows_after (err e) rows = rows

-- An insert that succeeds or is refused keeps both constraints.
pub insert_row-IsUnique :
    (now : ℕ) (d : CreateTriggerData) (table : Table)
    → IsUnique table.rows
    → IsUnique (rows_after (insert_row now d table) table.rows)
unfolding insert_row
insert_row-IsUnique now d table v =
    ground (arith, any-IsFresh d.idempotency_key table.rows, any-IsIdle d.action_key table.rows)

conflicts-NoOther :
    (f : Trigger → Trigger) (k : String) (t : Trigger) (rows : List Trigger)
    → KeepsIdentity f
    → conflicts k (f t) rows ≡ false
    → is_active (f t).status ≡ true
    → NoOther k t.action_key rows
unfolding conflicts
conflicts-NoOther f k t rows same c act =
    rw (← same.same_action t) (any-NoOther k (f t).action_key rows (ground arith))

-- So does an update of one row, whatever its condition.
pub update_row-IsUnique :
    (where_clause : Trigger → Bool) (f : Trigger → Trigger) (k : String) (table : Table)
    → KeepsIdentity f
    → IsUnique table.rows
    → IsUnique (rows_after (update_row where_clause f k table) table.rows)
unfolding update_row
update_row-IsUnique where_clause f k table same v = elim (Option-cases (row_by_key k table.rows)) [
  | inl missing ↦ rw (missing, update_row) v
  | inr (t, found) ↦
      let keys = set_row-DistinctKeys f same k table.rows v.keys in
      let actions = λ (c : conflicts k (f t) table.rows ≡ false).
        set_row-OneActive f same k t table.rows v.keys found
          (conflicts-NoOther f k t table.rows same c) v.actions in
      rw (found, update_row)
        (elim (Bool-cases (where_clause t)) [
          | inl w ↦ rw w (elim (Bool-cases (conflicts k (f t) table.rows)) [
            | inl c ↦ rw c v
            | inr c ↦ rw c (record { keys = keys; actions = actions c })
          ])
          | inr w ↦ rw w v
        ])
]

module _ (now : ℕ) (k : String) (table : Table) (v : IsUnique table.rows) where
  pub update_trigger_row-IsUnique :
      (u : UpdateTriggerData) → IsUnique (rows_after (update_trigger_row u now k table) table.rows)
  unfolding update_trigger_row
  update_trigger_row-IsUnique u =
      update_row-IsUnique always (apply_update u now) k table
        (record { same_key = λ t. refl; same_action = λ t. refl }) v

  pub approve_row-IsUnique :
      (actor : String) → IsUnique (rows_after (approve_row actor now k table) table.rows)
  unfolding approve_row
  approve_row-IsUnique actor =
      update_row-IsUnique awaits_approval (approve_change actor now) k table
        (record { same_key = λ t. refl; same_action = λ t. refl }) v

  pub reject_row-IsUnique :
      (actor : String) (reason : Option String)
      → IsUnique (rows_after (reject_row actor reason now k table) table.rows)
  unfolding reject_row
  reject_row-IsUnique actor reason =
      update_row-IsUnique awaits_approval (reject_change actor reason now) k table
        (record { same_key = λ t. refl; same_action = λ t. refl }) v
