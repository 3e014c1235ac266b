-- ===== src/KernelSqlite/Outbox/Reachable.antt =====
-- The tables that the operations of the Outbox reach
-- (rust/crates/kernel-sqlite/src/outbox.rs, `append_active_event_v2` and `mark_delivered`).
use shittim.Base.{
  ℕ, false, Bool-cases, Option, none, some, [], Result, ok, err, ℤ, ◌≡◌, refl, sym, ap, ◌∙◌, subst,
  arith, inl, inr, is_present,
}
use shittim.KernelSqlite.Store.{
  StoreErrorCode, upsert_sequence, update_delivered, Database, WriteTransaction, with_savepoint,
}
use shittim.KernelSqlite.Store.Atomic.{IsAtomic, with_savepoint-IsAtomic}
use shittim.KernelSqlite.OutboxTables.{Tables, next_sequence, insert_row, upsert_in}
use shittim.KernelSqlite.Events.{
  PendingActiveEventV2, VersionedAppend, OutboxRecord, EventCodec, active_input,
}
use shittim.KernelSqlite.Outbox.{
  MarkDeliveredResult, decode_versioned_row_at, row_of, append_operation, append_versioned_event,
  append_input, append_active_event_v2, update_row, mark_found, mark_delivered,
}
use shittim.KernelSqlite.Outbox.Numbering.{
  sequences_of, upto, IsNumbered, set_delivered-sequences_of, set_delivered-IsAscending,
}
use shittim.KernelSqlite.Outbox.Appends.{Appends, append_operation-ok, insert_row-IsNumbered}

abbrev pub no_rows : Tables
no_rows = record { sequences = []; outbox = []; last_position = 0 }

no_rows-IsNumbered : IsNumbered no_rows
unfolding sequences_of upto next_sequence
no_rows-IsNumbered = record { numbered = λ t i. refl; ascending = omega arith }

module _ (codec : EventCodec) (database : Database Tables) where
  -- Tables that start empty and on which any appends and marks ran, with whatever results, each in
  -- a transaction that it did not poison.
  pub data IsReachable : Tables → Type 0 where
    created : IsReachable no_rows
    appended :
        (before after : WriteTransaction Tables) (pending : PendingActiveEventV2)
        (result : Result StoreErrorCode OutboxRecord)
        → IsReachable before.tables
        → append_active_event_v2 codec database pending before ≡ (result, after)
        → after.poisoned ≡ false
        → IsReachable after.tables
    delivered :
        (before after : Tables) (position : ℕ) (at : ℤ)
        (result : Result StoreErrorCode MarkDeliveredResult)
        → IsReachable before
        → mark_delivered codec database position at before ≡ (result, after)
        → IsReachable after

  Appends-IsNumbered :
      (input : VersionedAppend) (tables : Tables) (found : OutboxRecord) (after : Tables)
      → Appends codec database input tables found after
      → IsNumbered tables
      → IsNumbered after
  Appends-IsNumbered input tables found after appends numbered =
      subst IsNumbered (sym appends.after_is) (
        subst
          (λ row.
            IsNumbered (insert_row row (upsert_in input.aggregate_type input.aggregate_id tables)))
          (sym appends.is_row)
          (insert_row-IsNumbered tables
            (row_of codec database input
              (next_sequence input.aggregate_type input.aggregate_id tables.sequences)
              appends.payload_json appends.causation_json tables)
            refl refl numbered))

  atomic-IsNumbered :
      (input : VersionedAppend) (before : WriteTransaction Tables)
      (outcome : Result StoreErrorCode OutboxRecord × WriteTransaction Tables)
      → IsAtomic database (append_operation codec database input) before outcome
      → IsNumbered before.tables
      → outcome.1.poisoned ≡ false
      → IsNumbered outcome.1.tables
  atomic-IsNumbered input before (ok found, after) atomic numbered sound =
      Appends-IsNumbered input before.tables found after.tables
        (append_operation-ok codec database input before.tables found after.tables
          (database.refuses upsert_sequence before.tables) refl atomic.0)
        numbered
  atomic-IsNumbered input before (err code, after) (inl same) numbered sound =
      subst (λ (transaction : WriteTransaction Tables). IsNumbered transaction.tables) (sym same)
        numbered
  atomic-IsNumbered input before (err code, after) (inr poison) numbered sound = cc

  append_input-IsNumbered :
      (input : Result StoreErrorCode VersionedAppend) (before : WriteTransaction Tables)
      → IsNumbered before.tables
      → (append_input codec database input before).1.poisoned ≡ false
      → IsNumbered (append_input codec database input before).1.tables
  unfolding append_versioned_event
  append_input-IsNumbered (err code) before numbered sound = numbered
  append_input-IsNumbered (ok input) before numbered sound =
      atomic-IsNumbered input before
        (with_savepoint database (append_operation codec database input) before)
        (with_savepoint-IsAtomic database (append_operation codec database input) before) numbered
        sound

  update_row-IsNumbered :
      (position : ℕ) (at : ℤ) (tables : Tables) (refusal : Option StoreErrorCode)
      → database.refuses update_delivered tables ≡ refusal
      → IsNumbered tables
      → IsNumbered (update_row codec database position at tables).1
  unfolding update_row
  update_row-IsNumbered position at tables (some code) e numbered = rw (e, update_row) numbered
  update_row-IsNumbered position at tables none e numbered =
      rw (e, update_row)
        (record {
          numbered = λ t i.
              set_delivered-sequences_of position (codec.to_rfc3339 at) t i tables.outbox
              ∙ numbered.numbered t i;
          ascending =
              set_delivered-IsAscending position (codec.to_rfc3339 at) 0 tables.outbox
                tables.last_position numbered.ascending;
        })

  mark_found-IsNumbered :
      (position : ℕ) (at : ℤ) (result : Result StoreErrorCode (Option OutboxRecord))
      (tables : Tables)
      → IsNumbered tables
      → IsNumbered (mark_found codec database position at result tables).1
  mark_found-IsNumbered position at (err code) tables numbered = numbered
  mark_found-IsNumbered position at (ok none) tables numbered = numbered
  mark_found-IsNumbered position at (ok (some found)) tables numbered =
      elim (Bool-cases (is_present found.delivered_at)) [
        | inl there ↦ rw there numbered
        | inr missing ↦ rw missing (
            update_row-IsNumbered position at tables (database.refuses update_delivered tables) refl
              numbered)
      ]

  -- In all tables that are reached from empty ones by appends and marks, with whatever results, the
  -- events of each aggregate bear the sequences 0, 1, 2 and so on in the order of their positions,
  -- without a gap; the aggregate's counter is the next of them, so that a failed append uses none
  -- up; and the positions increase.
  pub IsReachable-IsNumbered : {tables : Tables} → IsReachable tables → IsNumbered tables
  unfolding append_active_event_v2 mark_delivered
  IsReachable-IsNumbered created = no_rows-IsNumbered
  IsReachable-IsNumbered (appended before after pending result reachable run sound) =
      subst
        (λ (p : Result StoreErrorCode OutboxRecord × WriteTransaction Tables).
          IsNumbered p.1.tables)
        run
        (append_input-IsNumbered (active_input codec pending) before
          (IsReachable-IsNumbered reachable)
          (ap (λ (p : Result StoreErrorCode OutboxRecord × WriteTransaction Tables). p.1.poisoned)
              run
            ∙ sound))
  IsReachable-IsNumbered (delivered before after position at result reachable run) =
      subst (λ (p : Result StoreErrorCode MarkDeliveredResult × Tables). IsNumbered p.1) run
        (mark_found-IsNumbered position at (decode_versioned_row_at codec database before position)
          before (IsReachable-IsNumbered reachable))
