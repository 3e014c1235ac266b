-- ===== src/KernelSqlite/Store.antt =====
-- Store errors, and savepoints of a write transaction (rust/crates/kernel-sqlite/src/error.rs and
-- lib.rs, `WriteTransaction::with_savepoint`).
pub mod Atomic
use shittim.Base.{ℕ, Bool, true, false, Option, none, some, List, Result, ok, err, Text, codes}

pub data StoreErrorCode : Type 0 where
  invalid_database_path sqlite_open_failed sqlite_configuration_failed sqlite_busy : StoreErrorCode
  sqlite_full sqlite_corrupt migration_failed migration_drift : StoreErrorCode
  database_schema_too_new constraint_violation serialization_failed contract_invalid :
      StoreErrorCode
  invalid_scope_pattern idempotency_conflict delegation_not_found parent_origin_not_found :
      StoreErrorCode
  stored_data_invalid invalid_cursor not_found internal_store_error : StoreErrorCode

-- `StoreErrorCode::as_str`
unfoldable pub store_error_code_str : StoreErrorCode → Text
store_error_code_str invalid_database_path = codes "invalid_database_path"
store_error_code_str sqlite_open_failed = codes "sqlite_open_failed"
store_error_code_str sqlite_configuration_failed = codes "sqlite_configuration_failed"
store_error_code_str sqlite_busy = codes "sqlite_busy"
store_error_code_str sqlite_full = codes "sqlite_full"
store_error_code_str sqlite_corrupt = codes "sqlite_corrupt"
store_error_code_str migration_failed = codes "migration_failed"
store_error_code_str migration_drift = codes "migration_drift"
store_error_code_str database_schema_too_new = codes "database_schema_too_new"
store_error_code_str constraint_violation = codes "constraint_violation"
store_error_code_str serialization_failed = codes "serialization_failed"
store_error_code_str contract_invalid = codes "contract_invalid"
store_error_code_str invalid_scope_pattern = codes "invalid_scope_pattern"
store_error_code_str idempotency_conflict = codes "idempotency_conflict"
store_error_code_str delegation_not_found = codes "delegation_not_found"
store_error_code_str parent_origin_not_found = codes "parent_origin_not_found"
store_error_code_str stored_data_invalid = codes "stored_data_invalid"
store_error_code_str invalid_cursor = codes "invalid_cursor"
store_error_code_str not_found = codes "not_found"
store_error_code_str internal_store_error = codes "internal_store_error"

-- The statements that SQLite may refuse.
pub data Statement : Type 0 where
  savepoint release_savepoint rollback_to_savepoint : Statement
  upsert_sequence insert_event select_row select_rows select_max update_delivered : Statement

-- When SQLite refuses a statement on tables `T`, with the code that `StoreError::sqlite` makes of it.
pub record Database (T : Type 0) : Type 0 where
  pub refuses : Statement → T → Option StoreErrorCode

-- The tables and the flag `poisoned` of a `WriteTransaction`
pub record WriteTransaction (T : Type 0) : Type 0 where
  pub tables : T
  pub poisoned : Bool

module _ {T A : Type 0} (database : Database T) where
  -- `ROLLBACK TO SAVEPOINT; RELEASE SAVEPOINT`, which fails with `code` or poisons
  unfoldable pub roll_back :
      StoreErrorCode → WriteTransaction T → T → Result StoreErrorCode A × WriteTransaction T
  roll_back code before after = elim (database.refuses rollback_to_savepoint after) [
    | none ↦ (err code, before)
    | some refusal ↦ (err internal_store_error, record { tables = after; poisoned = true })
  ]

  -- The `match result` of `with_savepoint`
  unfoldable pub close_savepoint :
      WriteTransaction T
      → Result StoreErrorCode A
      → T
      → Result StoreErrorCode A × WriteTransaction T
  unfolding roll_back
  close_savepoint before (err code) after = roll_back code before after
  close_savepoint before (ok value) after = elim (database.refuses release_savepoint after) [
    | none ↦ (ok value, record before { tables = after })
    | some code ↦ roll_back code before after
  ]

  unfoldable pub with_savepoint :
      (T → Result StoreErrorCode A × T)
      → WriteTransaction T
      → Result StoreErrorCode A × WriteTransaction T
  unfolding close_savepoint
  with_savepoint operation before = elim (database.refuses savepoint before.tables) [
    | some code ↦ (err code, before)
    | none ↦ let result = operation before.tables in close_savepoint before result.0 result.1
  ]
