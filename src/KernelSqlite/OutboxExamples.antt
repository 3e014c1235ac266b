-- ===== src/KernelSqlite/OutboxExamples.antt =====
-- The theorems on savepoints and the Event Outbox at concrete inputs, and tests
-- (rust/crates/kernel-sqlite/src/outbox.rs).
use shittim.Base.{
  arith, ℕ, true, false, none, some, List, [], ◌∷◌, Result, ok, err, ◌≡◌, refl, Text, codes, pos,
}
use shittim.Contracts.Json.{Json, object, empty_object}
use shittim.KernelSqlite.Store.{
  StoreErrorCode, constraint_violation, contract_invalid, internal_store_error, invalid_cursor,
  rollback_to_savepoint, Database, WriteTransaction,
}
use shittim.KernelSqlite.Events.{
  CausationRefV2, EventEnvelopeV2Payload, EventAggregateId, PendingActiveEventV2, EventCodec,
  OutboxRecord, active_input,
}
use shittim.KernelSqlite.OutboxTables.{OutboxRow, Tables, page_limit}
use shittim.KernelSqlite.Outbox.{
  marked, already_marked, not_found, read_after, read_undelivered, latest_position,
  append_active_event_v2, mark_delivered,
}
use shittim.KernelSqlite.Outbox.Numbering.{IsNumbered}
use shittim.KernelSqlite.Outbox.Reachable.{
  no_rows, IsReachable, created, appended, delivered, IsReachable-IsNumbered,
}
use shittim.KernelSqlite.Cursor.{cursor_from_str}
use shittim.KernelSqlite.Outbox.Positions.{last_text}
use shittim.KernelSqlite.Outbox.Paging.{read_after-read_after}

abbrev an_object : Json
an_object = object empty_object

-- A codec whose documents are the empty object and whose instants are one.
abbrev plain_codec : EventCodec
plain_codec = record {
  parse_uuid = λ text. some text;
  to_rfc3339 = λ instant. codes "1970-01-01T00:00:00Z";
  parse_from_rfc3339 = λ text. some (pos 0);
  from_str = λ text. some an_object;
  canonical_json_string = λ value. some (codes "{}");
  causation_to_value = λ reference. some an_object;
  causation_from_value = λ value. some (CausationRefV2.event (codes "cause"));
  payload_to_value = λ payload. some an_object;
  payload_from_value =
      λ event_type value. some (EventEnvelopeV2Payload.task_created (codes "task-1") an_object);
  validate_json = λ value. true;
}

abbrev willing_database : Database Tables
willing_database = record { refuses = λ statement tables. none }

abbrev created_event : Text → PendingActiveEventV2
created_event event_id = record {
  event_id = event_id;
  aggregate_id = EventAggregateId.task_aggregate (codes "task-1");
  occurred_at = pos 0;
  causation_ref = CausationRefV2.event (codes "cause");
  correlation_id = codes "correlation";
  dedup_key = event_id;
  payload = EventEnvelopeV2Payload.task_created (codes "task-1") an_object;
}

abbrev row_at : ℕ → ℕ → Text → OutboxRow
row_at position sequence event_id = record {
  outbox_position = position;
  event_id = event_id;
  event_type = codes "task.created";
  aggregate_type = codes "task";
  aggregate_id = codes "task-1";
  sequence = sequence;
  occurred_at = codes "1970-01-01T00:00:00Z";
  causation_json = codes "{}";
  correlation_id = codes "correlation";
  dedup_key = event_id;
  payload_json = codes "{}";
  delivered_at = none;
}

abbrev transaction_of : ℕ → ℕ → List OutboxRow → WriteTransaction Tables
transaction_of last_sequence last_position rows = record {
  tables = record {
    sequences =
        record {
          aggregate_type = codes "task";
          aggregate_id = codes "task-1";
          last_sequence = last_sequence;
        }
        ∷ [];
    outbox = rows;
    last_position = last_position;
  };
  poisoned = false;
}

abbrev nothing_yet : WriteTransaction Tables
nothing_yet = record { tables = no_rows; poisoned = false }

abbrev one_event : WriteTransaction Tables
one_event = transaction_of 0 1 (row_at 1 0 (codes "a") ∷ [])

abbrev two_events : WriteTransaction Tables
two_events = transaction_of 1 2 (row_at 1 0 (codes "a") ∷ row_at 2 1 (codes "b") ∷ [])

abbrev append_to :
    WriteTransaction Tables → Text → Result StoreErrorCode OutboxRecord × WriteTransaction Tables
append_to transaction event_id =
    append_active_event_v2 plain_codec willing_database (created_event event_id) transaction

sample_append : (append_to nothing_yet (codes "a")).1 ≡ one_event
unfolding append_active_event_v2
sample_append = refl

sample_append_next : (append_to one_event (codes "b")).1 ≡ two_events
unfolding append_active_event_v2
sample_append_next = refl

-- The same event again breaks `UNIQUE`, and uses up no sequence and no position.
sample_append_duplicate : append_to two_events (codes "a") ≡ (err constraint_violation, two_events)
unfolding append_active_event_v2
sample_append_duplicate = refl

-- A refused rollback poisons the transaction.
sample_poisoned :
    (append_active_event_v2 plain_codec
      (record {
        refuses = λ statement tables. elim statement [
          | rollback_to_savepoint ↦ some internal_store_error
          | _ ↦ none
        ];
      })
      (created_event (codes "a"))
      one_event).1.poisoned
    ≡ true
unfolding append_active_event_v2
sample_poisoned = refl

sample_no_dedup_key : active_input plain_codec (created_event []) ≡ err contract_invalid
unfolding active_input
sample_no_dedup_key = refl

sample_page_limit : page_limit 501 ≡ err invalid_cursor
unfolding page_limit
sample_page_limit = refl

-- Two events of one Task, then the first one is marked.
abbrev marked_tables : Tables
marked_tables = record two_events.tables {
  outbox =
      record (row_at 1 0 (codes "a")) { delivered_at = some (codes "1970-01-01T00:00:00Z") }
      ∷ row_at 2 1 (codes "b")
      ∷ [];
}

sample_mark :
    mark_delivered plain_codec willing_database 1 (pos 0) two_events.tables
    ≡ (ok marked, marked_tables)
unfolding mark_delivered
sample_mark = refl

sample_mark_again :
    mark_delivered plain_codec willing_database 1 (pos 0) marked_tables
    ≡ (ok already_marked, marked_tables)
unfolding mark_delivered
sample_mark_again = refl

sample_mark_missing :
    mark_delivered plain_codec willing_database 3 (pos 0) marked_tables
    ≡ (ok not_found, marked_tables)
unfolding mark_delivered
sample_mark_missing = refl

two_events-IsReachable : IsReachable plain_codec willing_database two_events.tables
two_events-IsReachable =
    appended one_event two_events (created_event (codes "b")) (append_to one_event (codes "b")).0
      (appended nothing_yet one_event (created_event (codes "a"))
        (append_to nothing_yet (codes "a")).0 created
        (pair_of (append_to nothing_yet (codes "a")) one_event sample_append) refl)
      (pair_of (append_to one_event (codes "b")) two_events sample_append_next) refl
  where
    pair_of :
        (outcome : Result StoreErrorCode OutboxRecord × WriteTransaction Tables)
        (after : WriteTransaction Tables)
        → outcome.1 ≡ after
        → outcome ≡ (outcome.0, after)
    pair_of (result, reached) after same = cc

IsReachable-IsNumbered_example : IsNumbered marked_tables
IsReachable-IsNumbered_example = IsReachable-IsNumbered plain_codec willing_database (
    delivered two_events.tables marked_tables 1 (pos 0) (ok marked) two_events-IsReachable
      sample_mark)

abbrev record_at : Text → Text → ℕ → OutboxRecord
record_at event_id position sequence = record {
  envelope = record {
    aggregate_id = codes "task-1";
    aggregate_type = codes "task";
    causation_ref = CausationRefV2.event (codes "cause");
    correlation_id = codes "correlation";
    dedup_key = event_id;
    event_id = event_id;
    occurred_at = codes "1970-01-01T00:00:00Z";
    outbox_position = position;
    sequence = sequence;
    type_ = codes "task.created";
    payload = EventEnvelopeV2Payload.task_created (codes "task-1") an_object;
  };
  delivered_at = none;
}

sample_first_page :
    read_after plain_codec willing_database two_events.tables 0 1
    ≡ ok (record_at (codes "a") (codes "1") 0 ∷ [])
unfolding read_after
sample_first_page = refl

sample_second_page :
    read_after plain_codec willing_database two_events.tables 1 1
    ≡ ok (record_at (codes "b") (codes "2") 1 ∷ [])
unfolding read_after
sample_second_page = refl

sample_last_text : last_text (record_at (codes "a") (codes "1") 0 ∷ []) ≡ some (codes "1")
unfolding last_text
sample_last_text = refl

sample_cursor : cursor_from_str (codes "1") ≡ ok 1
unfolding cursor_from_str
sample_cursor = refl

sample_no_cursor : cursor_from_str (codes "-1") ≡ err invalid_cursor
unfolding cursor_from_str
sample_no_cursor = refl

sample_cursor_overflow : cursor_from_str (codes "9223372036854775808") ≡ err invalid_cursor
unfolding cursor_from_str
sample_cursor_overflow = refl

read_after-read_after_example :
    read_after plain_codec willing_database two_events.tables 0 2
    ≡ ok (record_at (codes "a") (codes "1") 0 ∷ record_at (codes "b") (codes "2") 1 ∷ [])
read_after-read_after_example =
    read_after-read_after plain_codec willing_database two_events.tables 0 1 1 1 (codes "1")
      (record_at (codes "a") (codes "1") 0 ∷ []) (record_at (codes "b") (codes "2") 1 ∷ [])
      two_events-IsReachable (omega arith) sample_first_page sample_last_text sample_cursor
      sample_second_page

sample_latest : latest_position plain_codec willing_database two_events.tables ≡ ok (some 2)
unfolding latest_position
sample_latest = refl

sample_undelivered :
    read_undelivered plain_codec willing_database marked_tables 0 10
    ≡ ok (record_at (codes "b") (codes "2") 1 ∷ [])
unfolding read_undelivered
sample_undelivered = refl

-- An operation that writes and then fails.
abbrev failing_operation : Tables → Result StoreErrorCode (Unit {0}) × Tables
failing_operation tables = (err constraint_violation, no_rows)
