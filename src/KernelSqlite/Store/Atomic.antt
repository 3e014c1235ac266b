-- ===== src/KernelSqlite/Store/Atomic.antt =====
-- What a savepoint promises (rust/crates/kernel-sqlite/src/lib.rs,
-- `WriteTransaction::with_savepoint`).
use shittim.Base.{true, Option, none, some, Result, ok, err, ◌≡◌, refl, sym, subst, ◌⊎◌, inl, inr}
use shittim.KernelSqlite.Store.{
  StoreErrorCode, internal_store_error, savepoint, release_savepoint, rollback_to_savepoint,
  Database, WriteTransaction, roll_back, close_savepoint, with_savepoint,
}

module _ {T A : Type 0} (database : Database T) where
  -- An operation under a savepoint succeeds, and its tables are those of the transaction; or fails
  -- and leaves the transaction as it was; or poisons it, with an internal error.
  abbrev pub IsAtomic :
      (T → Result StoreErrorCode A × T)
      → WriteTransaction T
      → Result StoreErrorCode A × WriteTransaction T
      → Type 0
  IsAtomic operation before (ok value, after) =
      (operation before.tables ≡ (ok value, after.tables)) × (after.poisoned ≡ before.poisoned)
  IsAtomic operation before (err code, after) =
      (after ≡ before) ⊎ ((after.poisoned ≡ true) × (code ≡ internal_store_error))

  roll_back-IsAtomic :
      (operation : T → Result StoreErrorCode A × T) (code : StoreErrorCode)
      (before : WriteTransaction T) (reached : T) (refusal : Option StoreErrorCode)
      → database.refuses rollback_to_savepoint reached ≡ refusal
      → IsAtomic operation before (roll_back database code before reached)
  unfolding roll_back
  roll_back-IsAtomic operation code before reached none h =
      subst (IsAtomic operation before) {x = (err code, before)} (sym (rw (h, roll_back) refl))
        (inl refl)
  roll_back-IsAtomic operation code before reached (some refusal) h =
      subst (IsAtomic operation before)
        {x = (err internal_store_error, record { tables = reached; poisoned = true })}
        (sym (rw (h, roll_back) refl)) (inr (refl, refl))

  release-IsAtomic :
      (operation : T → Result StoreErrorCode A × T) (before : WriteTransaction T) (value : A)
      (reached : T) (refusal : Option StoreErrorCode)
      → operation before.tables ≡ (ok value, reached)
      → database.refuses release_savepoint reached ≡ refusal
      → IsAtomic operation before (close_savepoint database before (ok value) reached)
  unfolding close_savepoint
  release-IsAtomic operation before value reached none h e =
      subst (IsAtomic operation before) {x = (ok value, record before { tables = reached })}
        (sym (rw (e, close_savepoint) refl)) (h, refl)
  release-IsAtomic operation before value reached (some code) h e =
      subst (IsAtomic operation before) {x = roll_back database code before reached}
        (sym (rw (e, close_savepoint) refl))
        (roll_back-IsAtomic operation code before reached
          (database.refuses rollback_to_savepoint reached) refl)

  close_savepoint-IsAtomic :
      (operation : T → Result StoreErrorCode A × T) (before : WriteTransaction T)
      (result : Result StoreErrorCode A) (reached : T)
      → operation before.tables ≡ (result, reached)
      → IsAtomic operation before (close_savepoint database before result reached)
  unfolding close_savepoint
  close_savepoint-IsAtomic operation before (err code) reached h =
      roll_back-IsAtomic operation code before reached
        (database.refuses rollback_to_savepoint reached) refl
  close_savepoint-IsAtomic operation before (ok value) reached h =
      release-IsAtomic operation before value reached (database.refuses release_savepoint reached) h
        refl

  under-IsAtomic :
      (operation : T → Result StoreErrorCode A × T) (before : WriteTransaction T)
      (refusal : Option StoreErrorCode)
      → database.refuses savepoint before.tables ≡ refusal
      → IsAtomic operation before (with_savepoint database operation before)
  unfolding with_savepoint
  under-IsAtomic operation before none e =
      subst (IsAtomic operation before)
        {x = close_savepoint database before (operation before.tables).0
          (operation before.tables).1}
        (sym (rw (e, with_savepoint) refl))
        (close_savepoint-IsAtomic operation before (operation before.tables).0
          (operation before.tables).1 refl)
  under-IsAtomic operation before (some code) e =
      subst (IsAtomic operation before) {x = (err code, before)} (sym (rw (e, with_savepoint) refl))
        (inl refl)

  pub with_savepoint-IsAtomic :
      (operation : T → Result StoreErrorCode A × T) (before : WriteTransaction T)
      → IsAtomic operation before (with_savepoint database operation before)
  with_savepoint-IsAtomic operation before =
      under-IsAtomic operation before (database.refuses savepoint before.tables) refl
