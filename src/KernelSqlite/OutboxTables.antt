-- ===== src/KernelSqlite/OutboxTables.antt =====
-- The tables of the Event Outbox and what the SQL statements do with them
-- (rust/crates/kernel-sqlite/src/outbox.rs and migrations/0003_versioned_event_outbox.sql).
use shittim.Base.{
  ℕ, zero, suc, Bool, not, ◌&&◌, ◌||◌, ◌==◌, ltb, leb, Option, none, some, List, [], ◌∷◌, ◌++◌, any,
  Result, ok, err, if◌then◌else◌, Text, text_eq, is_present,
}
use shittim.KernelSqlite.Store.{StoreErrorCode, invalid_cursor}

-- A row of the table `outbox`; its constant `schema_version` is left out.
pub record OutboxRow : Type 0 where
  pub outbox_position : ℕ
  pub event_id : Text
  pub event_type : Text
  pub aggregate_type : Text
  pub aggregate_id : Text
  pub sequence : ℕ
  pub occurred_at : Text
  pub causation_json : Text
  pub correlation_id : Text
  pub dedup_key : Text
  pub payload_json : Text
  pub delivered_at : Option Text

-- A row of the table `aggregate_event_sequences`
pub record SequenceRow : Type 0 where
  pub aggregate_type : Text
  pub aggregate_id : Text
  pub last_sequence : ℕ

-- The rows of the Outbox stand in the order of their positions; `last_position` is what
-- AUTOINCREMENT remembers.
pub record Tables : Type 0 where
  pub sequences : List SequenceRow
  pub outbox : List OutboxRow
  pub last_position : ℕ

-- `OutboxCursor` and `OutboxPosition` are natural numbers, the latter positive, and a `PageLimit`
-- is one in 1..=500.
unfoldable pub page_limit : ℕ → Result StoreErrorCode ℕ
page_limit value = if leb 1 value && leb value 500 then ok value else err invalid_cursor

unfoldable pub outbox_position : ℕ → Result StoreErrorCode ℕ
outbox_position value = if ltb 0 value then ok value else err invalid_cursor

-- The sequence that the `INSERT … ON CONFLICT … DO UPDATE … RETURNING` returns
unfoldable pub next_sequence : Text → Text → List SequenceRow → ℕ
unfolding text_eq
next_sequence aggregate_type aggregate_id [] = 0
next_sequence aggregate_type aggregate_id (row ∷ rows) =
    let later = next_sequence aggregate_type aggregate_id rows in
    if text_eq row.aggregate_type aggregate_type && text_eq row.aggregate_id aggregate_id
    then suc row.last_sequence
    else later

-- The rows that it leaves
unfoldable pub upsert : Text → Text → List SequenceRow → List SequenceRow
unfolding text_eq
upsert aggregate_type aggregate_id [] =
    record { aggregate_type = aggregate_type; aggregate_id = aggregate_id; last_sequence = 0 } ∷ []
upsert aggregate_type aggregate_id (row ∷ rows) =
    let later = upsert aggregate_type aggregate_id rows in
    if text_eq row.aggregate_type aggregate_type && text_eq row.aggregate_id aggregate_id
    then record row { last_sequence = suc row.last_sequence } ∷ rows
    else row ∷ later

-- `UNIQUE` of the table: the event, the deduplication key, and the aggregate with its sequence. The
-- `CHECK` constraints are left out: they ask of a row what `active_input` asks of the event.
unfoldable pub is_duplicate : OutboxRow → OutboxRow → Bool
unfolding text_eq
is_duplicate row other =
    text_eq row.event_id other.event_id
    || text_eq row.dedup_key other.dedup_key
    || (text_eq row.aggregate_type other.aggregate_type
        && text_eq row.aggregate_id other.aggregate_id
        && row.sequence == other.sequence)

unfoldable pub find_row : ℕ → List OutboxRow → Option OutboxRow
find_row position [] = none
find_row position (row ∷ rows) =
    let later = find_row position rows in
    if row.outbox_position == position then some row else later

-- `WHERE outbox_position > ?1`, `WHERE delivered_at IS NULL AND …`, and `LIMIT ?2`
unfoldable pub rows_where : (OutboxRow → Bool) → List OutboxRow → List OutboxRow
rows_where condition [] = []
rows_where condition (row ∷ rows) =
    let later = rows_where condition rows in if condition row then row ∷ later else later

unfoldable pub take_rows : ℕ → List OutboxRow → List OutboxRow
take_rows zero rows = []
take_rows (suc n) [] = []
take_rows (suc n) (row ∷ rows) = row ∷ take_rows n rows

abbrev pub is_after : ℕ → OutboxRow → Bool
is_after cursor row = ltb cursor row.outbox_position

abbrev pub is_pending_after : ℕ → OutboxRow → Bool
is_pending_after cursor row = not (is_present row.delivered_at) && ltb cursor row.outbox_position

-- The largest position, or nothing
unfoldable pub max_position : List OutboxRow → Option ℕ
max_position [] = none
max_position (row ∷ []) = some row.outbox_position
max_position (row ∷ more ∷ rows) = elim (max_position (more ∷ rows)) [
  | none ↦ some row.outbox_position
  | some position ↦
      if ltb position row.outbox_position then some row.outbox_position else some position
]

-- The condition of the `UPDATE`
abbrev pub is_undelivered_at : ℕ → OutboxRow → Bool
is_undelivered_at position row =
    row.outbox_position == position && not (is_present row.delivered_at)

unfoldable pub set_delivered : ℕ → Text → List OutboxRow → List OutboxRow
set_delivered position delivered_at [] = []
set_delivered position delivered_at (row ∷ rows) =
    let later = set_delivered position delivered_at rows in
    if is_undelivered_at position row
    then record row { delivered_at = some delivered_at } ∷ later
    else row ∷ later

-- Whether an inserted row would break `UNIQUE`
abbrev pub is_taken : OutboxRow → List OutboxRow → Bool
is_taken row rows = any (is_duplicate row) rows

-- The `INSERT` of a row whose position is the next one
abbrev pub insert_row : OutboxRow → Tables → Tables
insert_row row tables = record tables {
  outbox = tables.outbox ++ (row ∷ []);
  last_position = row.outbox_position;
}

abbrev pub upsert_in : Text → Text → Tables → Tables
upsert_in aggregate_type aggregate_id tables = record tables {
  sequences = upsert aggregate_type aggregate_id tables.sequences;
}
