-- ===== src/KernelSqlite/Outbox.antt =====
-- The Event Outbox (rust/crates/kernel-sqlite/src/outbox.rs: appending, reading, marking).
pub mod Numbering
pub mod Appends
pub mod Reachable
pub mod Positions
pub mod Pages
pub mod Paging
use shittim.Base.{
  ℕ, zero, suc, ◌+◌, Bool, true, false, not, ◌&&◌, ◌||◌, ◌==◌, ltb, leb, Option, none, some, List,
  [], ◌∷◌, ◌++◌, any, Result, ok, err, ◌>>=◌, ◌>>◌, reject_if, ok_or, try_map, if◌then◌else◌, Text,
  text_eq, decimal_usize, ℤ, is_present,
}
use shittim.Contracts.Json.{Json}
use shittim.KernelSqlite.Store.{
  StoreErrorCode, constraint_violation, serialization_failed, stored_data_invalid, invalid_cursor,
  Statement, upsert_sequence, insert_event, select_row, select_rows, select_max, update_delivered,
  Database, WriteTransaction, with_savepoint,
}
use shittim.KernelSqlite.OutboxTables.{
  OutboxRow, SequenceRow, Tables, outbox_position, next_sequence, upsert, is_duplicate, find_row,
  rows_where, take_rows, is_after, is_pending_after, max_position, set_delivered, is_undelivered_at,
  is_taken, insert_row, upsert_in,
}
use shittim.KernelSqlite.Events.{
  PendingActiveEventV2, VersionedAppend, OutboxRecord, TypedEventEnvelopeV2, EventCodec, stored,
  stored_event_type, stored_aggregate_type, envelope_value, decode_envelope, active_input,
  parse_canonical_object, parse_delivered,
}

pub data MarkDeliveredResult : Type 0 where
  marked already_marked not_found : MarkDeliveredResult

module _ (codec : EventCodec) where
  -- `decode_versioned_parts`
  unfoldable pub decode_row : OutboxRow → Result StoreErrorCode OutboxRecord
  unfolding parse_canonical_object decode_envelope decimal_usize text_eq
  decode_row row = do
    causation ← parse_canonical_object codec row.causation_json
    payload ← parse_canonical_object codec row.payload_json
    event_type ← stored_event_type row.event_type
    aggregate_type ← stored_aggregate_type row.aggregate_type
    occurred_at ← ok_or (codec.parse_from_rfc3339 row.occurred_at) stored_data_invalid
    reject_if (not (ltb 0 row.outbox_position)) stored_data_invalid
    let input : VersionedAppend = record {
      event_id = row.event_id;
      event_type = event_type;
      aggregate_type = aggregate_type;
      aggregate_id = row.aggregate_id;
      occurred_at = occurred_at;
      causation = causation;
      correlation_id = row.correlation_id;
      dedup_key = row.dedup_key;
      payload = payload;
    }
    envelope ←
        decode_envelope codec (envelope_value codec input row.outbox_position row.sequence) stored
    delivered_at ← parse_delivered codec row.delivered_at
    ok (record { envelope = envelope; delivered_at = delivered_at })

  module _ (database : Database Tables) where
    -- A query that finds at most one row
    unfoldable pub decode_versioned_row_at :
        Tables → ℕ → Result StoreErrorCode (Option OutboxRecord)
    unfolding find_row decode_row
    decode_versioned_row_at tables position = elim (database.refuses select_row tables) [
      | some code ↦ err code
      | none ↦ elim (find_row position tables.outbox) [
        | none ↦ ok none
        | some row ↦ (do found ← decode_row row; ok (some found))
      ]
    ]

    unfoldable pub read_records :
        Tables → (OutboxRow → Bool) → ℕ → Result StoreErrorCode (List OutboxRecord)
    unfolding rows_where take_rows try_map decode_row
    read_records tables condition limit = elim (database.refuses select_rows tables) [
      | some code ↦ err code
      | none ↦ try_map decode_row (take_rows limit (rows_where condition tables.outbox))
    ]

    unfoldable pub read_after : Tables → ℕ → ℕ → Result StoreErrorCode (List OutboxRecord)
    unfolding read_records
    read_after tables cursor limit = read_records tables (is_after cursor) limit

    unfoldable pub read_undelivered : Tables → ℕ → ℕ → Result StoreErrorCode (List OutboxRecord)
    unfolding read_records
    read_undelivered tables cursor limit = read_records tables (is_pending_after cursor) limit

    unfoldable pub latest_position : Tables → Result StoreErrorCode (Option ℕ)
    unfolding max_position outbox_position
    latest_position tables = elim (database.refuses select_max tables) [
      | some code ↦ err code
      | none ↦ elim (max_position tables.outbox) [
        | none ↦ ok none
        | some value ↦ (do position ← outbox_position value; ok (some position))
      ]
    ]

    -- The end of `append_versioned_event`: the row as it is read back
    abbrev pub must_find :
        Result StoreErrorCode (Option OutboxRecord) → Result StoreErrorCode OutboxRecord
    must_find (err code) = err code
    must_find (ok none) = err stored_data_invalid
    must_find (ok (some found)) = ok found

    -- The `INSERT INTO outbox` and what follows
    unfoldable pub append_row : OutboxRow → Tables → Result StoreErrorCode OutboxRecord × Tables
    unfolding decode_versioned_row_at is_duplicate
    append_row row tables = elim (database.refuses insert_event tables) [
      | some code ↦ (err code, tables)
      | none ↦ if is_taken row tables.outbox then (err constraint_violation, tables) else (
        must_find (decode_versioned_row_at (insert_row row tables) row.outbox_position),
        insert_row row tables,
      )
    ]

    abbrev pub row_of : VersionedAppend → ℕ → Text → Text → Tables → OutboxRow
    row_of input sequence payload_json causation_json tables = record {
      outbox_position = suc tables.last_position;
      event_id = input.event_id;
      event_type = input.event_type;
      aggregate_type = input.aggregate_type;
      aggregate_id = input.aggregate_id;
      sequence = sequence;
      occurred_at = codec.to_rfc3339 input.occurred_at;
      causation_json = causation_json;
      correlation_id = input.correlation_id;
      dedup_key = input.dedup_key;
      payload_json = payload_json;
      delivered_at = none;
    }

    -- What follows the allocation of the sequence
    abbrev pub append_canonical :
        VersionedAppend
        → ℕ
        → Option Text
        → Option Text
        → Tables
        → Result StoreErrorCode OutboxRecord × Tables
    append_canonical input sequence none causation_json tables = (err serialization_failed, tables)
    append_canonical input sequence (some payload_json) none tables =
        (err serialization_failed, tables)
    append_canonical input sequence (some payload_json) (some causation_json) tables =
        append_row (row_of input sequence payload_json causation_json tables) tables

    -- The closure of `append_versioned_event`
    unfoldable pub append_operation :
        VersionedAppend → Tables → Result StoreErrorCode OutboxRecord × Tables
    unfolding next_sequence upsert append_row
    append_operation input tables = elim (database.refuses upsert_sequence tables) [
      | some code ↦ (err code, tables)
      | none ↦
          append_canonical input
            (next_sequence input.aggregate_type input.aggregate_id tables.sequences)
            (codec.canonical_json_string input.payload)
            (codec.canonical_json_string input.causation)
            (upsert_in input.aggregate_type input.aggregate_id tables)
    ]

    unfoldable pub append_versioned_event :
        VersionedAppend
        → WriteTransaction Tables
        → Result StoreErrorCode OutboxRecord × WriteTransaction Tables
    unfolding with_savepoint append_operation
    append_versioned_event input transaction =
        with_savepoint database (append_operation input) transaction

    abbrev pub append_input :
        Result StoreErrorCode VersionedAppend
        → WriteTransaction Tables
        → Result StoreErrorCode OutboxRecord × WriteTransaction Tables
    append_input (err code) transaction = (err code, transaction)
    append_input (ok input) transaction = append_versioned_event input transaction

    unfoldable pub append_active_event_v2 :
        PendingActiveEventV2
        → WriteTransaction Tables
        → Result StoreErrorCode OutboxRecord × WriteTransaction Tables
    unfolding active_input append_versioned_event
    append_active_event_v2 pending transaction =
        append_input (active_input codec pending) transaction

    -- The `UPDATE`, which changes the row of the position where it is still undelivered
    unfoldable pub update_row : ℕ → ℤ → Tables → Result StoreErrorCode MarkDeliveredResult × Tables
    unfolding set_delivered
    update_row position delivered_at tables = elim (database.refuses update_delivered tables) [
      | some code ↦ (err code, tables)
      | none ↦ (
        ok (if any (is_undelivered_at position) tables.outbox then marked else already_marked),
        record tables {
          outbox = set_delivered position (codec.to_rfc3339 delivered_at) tables.outbox;
        },
      )
    ]

    abbrev pub mark_found :
        ℕ
        → ℤ
        → Result StoreErrorCode (Option OutboxRecord)
        → Tables
        → Result StoreErrorCode MarkDeliveredResult × Tables
    mark_found position delivered_at (err code) tables = (err code, tables)
    mark_found position delivered_at (ok none) tables = (ok not_found, tables)
    mark_found position delivered_at (ok (some found)) tables =
        if is_present found.delivered_at
        then (ok already_marked, tables)
        else update_row position delivered_at tables

    unfoldable pub mark_delivered :
        ℕ → ℤ → Tables → Result StoreErrorCode MarkDeliveredResult × Tables
    unfolding decode_versioned_row_at update_row
    mark_delivered position delivered_at tables =
        mark_found position delivered_at (decode_versioned_row_at tables position) tables
