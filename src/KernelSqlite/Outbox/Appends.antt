-- ===== src/KernelSqlite/Outbox/Appends.antt =====
-- An append keeps the numbering of the Outbox (rust/crates/kernel-sqlite/src/outbox.rs,
-- `append_versioned_event`).
use shittim.Base.{
  ℕ, suc, Bool, true, false, Bool-cases, Option, none, some, List, [], ◌∷◌, ◌++◌, Result, ok, err,
  Text, text_eq_iff, ◌≡◌, refl, sym, ap, ◌∙◌, arith, inl, inr,
}
use shittim.KernelSqlite.Store.{StoreErrorCode, upsert_sequence, insert_event, Database}
use shittim.KernelSqlite.OutboxTables.{
  OutboxRow, SequenceRow, Tables, next_sequence, upsert, is_taken, insert_row, upsert_in,
}
use shittim.KernelSqlite.Events.{VersionedAppend, OutboxRecord, EventCodec}
use shittim.KernelSqlite.Outbox.{
  decode_versioned_row_at, must_find, append_row, row_of, append_canonical, append_operation,
}
use shittim.KernelSqlite.Outbox.Numbering.{
  is_of, sequences_of, upto, IsNumbered, sequences_of-append, IsAscending-append,
  next_sequence-upsert_same, next_sequence-upsert_other,
}

append-nil : (xs : List ℕ) → xs ++ [] ≡ xs
append-nil [] = refl
append-nil (x ∷ xs) = ap (◌∷◌ x) (append-nil xs)

same_aggregate :
    (t i : Text) (row : OutboxRow)
    → is_of t i row ≡ true
    → (row.aggregate_type ≡ t) × (row.aggregate_id ≡ i)
same_aggregate t i row h =
    ground (arith, text_eq_iff row.aggregate_type t, text_eq_iff row.aggregate_id i)

sequences_of-appended :
    (t i : Text) (rows : List OutboxRow) (row : OutboxRow) (sequences : List SequenceRow)
    → row.sequence ≡ next_sequence row.aggregate_type row.aggregate_id sequences
    → sequences_of t i rows ≡ upto (next_sequence t i sequences)
    → sequences_of t i (rows ++ (row ∷ []))
      ≡ upto (next_sequence t i (upsert row.aggregate_type row.aggregate_id sequences))
unfolding sequences_of upto
sequences_of-appended t i rows row sequences next numbered = elim (Bool-cases (is_of t i row)) [
  | inl same ↦ ground (
    arith,
    sequences_of-append t i rows row,
    next_sequence-upsert_same row.aggregate_type row.aggregate_id sequences,
    same_aggregate t i row same,
  )
  | inr other ↦ ground (
    arith,
    sequences_of-append t i rows row,
    next_sequence-upsert_other row.aggregate_type row.aggregate_id t i sequences other,
    append-nil (sequences_of t i rows),
  )
]

pub insert_row-IsNumbered :
    (tables : Tables) (row : OutboxRow)
    → row.outbox_position ≡ suc tables.last_position
    → row.sequence ≡ next_sequence row.aggregate_type row.aggregate_id tables.sequences
    → IsNumbered tables
    → IsNumbered (insert_row row (upsert_in row.aggregate_type row.aggregate_id tables))
insert_row-IsNumbered tables row last next all = record {
  numbered =
      λ t i. sequences_of-appended t i tables.outbox row tables.sequences next (all.numbered t i);
  ascending = IsAscending-append 0 tables.outbox tables.last_position row all.ascending last;
}

module _ (codec : EventCodec) (database : Database Tables) where
  -- The row that a successful append adds to the tables, and the record that it is read back as.
  pub record Appends (input : VersionedAppend) (tables : Tables) (found : OutboxRecord)
      (after : Tables) : Type 0 where
    pub payload_json : Text
    pub causation_json : Text
    pub row : OutboxRow
    pub is_row :
        row
        ≡ row_of codec database input
            (next_sequence input.aggregate_type input.aggregate_id tables.sequences)
            payload_json
            causation_json
            tables
    pub after_is : after ≡ insert_row row (upsert_in input.aggregate_type input.aggregate_id tables)
    pub reads_back :
        decode_versioned_row_at codec database after row.outbox_position ≡ ok (some found)

  must_find-ok :
      (result : Result StoreErrorCode (Option OutboxRecord)) (found : OutboxRecord)
      → must_find codec database result ≡ ok found
      → result ≡ ok (some found)
  must_find-ok (err code) found h = cc
  must_find-ok (ok none) found h = cc
  must_find-ok (ok (some other)) found h = cc

  insert-ok :
      (row : OutboxRow) (tables : Tables) (found : OutboxRecord) (after : Tables) (taken : Bool)
      → is_taken row tables.outbox ≡ taken
      → database.refuses insert_event tables ≡ none
      → append_row codec database row tables ≡ (ok found, after)
      → (after ≡ insert_row row tables)
        × (must_find codec database
              (decode_versioned_row_at codec database (insert_row row tables) row.outbox_position)
            ≡ ok found)
  unfolding append_row
  insert-ok row tables found after true t none_refused h =
      let g = rw (append_row, none_refused, t) at h in cc
  insert-ok row tables found after false t none_refused h =
      let g = rw (append_row, none_refused, t) at h in
      (
        sym (ap (λ (p : Result StoreErrorCode OutboxRecord × Tables). p.1) g),
        ap (λ (p : Result StoreErrorCode OutboxRecord × Tables). p.0) g,
      )

  append_row-ok :
      (row : OutboxRow) (tables : Tables) (found : OutboxRecord) (after : Tables)
      (refusal : Option StoreErrorCode)
      → database.refuses insert_event tables ≡ refusal
      → append_row codec database row tables ≡ (ok found, after)
      → (after ≡ insert_row row tables)
        × (decode_versioned_row_at codec database after row.outbox_position ≡ ok (some found))
  unfolding append_row
  append_row-ok row tables found after (some code) e h = let g = rw (append_row, e) at h in cc
  append_row-ok row tables found after none e h =
      let parts = insert-ok row tables found after (is_taken row tables.outbox) refl e h in
      (
        parts.0,
        ap (λ (t : Tables). decode_versioned_row_at codec database t row.outbox_position) parts.0
            ∙ must_find-ok
                (decode_versioned_row_at codec database (insert_row row tables) row.outbox_position)
                found parts.1,
      )

  -- What the closure of a successful append does.
  append_canonical-ok :
      (input : VersionedAppend) (tables : Tables) (found : OutboxRecord) (after : Tables)
      (payload_json causation_json : Option Text)
      → append_canonical codec database input
          (next_sequence input.aggregate_type input.aggregate_id tables.sequences)
          payload_json
          causation_json
          (upsert_in input.aggregate_type input.aggregate_id tables)
        ≡ (ok found, after)
      → Appends input tables found after
  append_canonical-ok input tables found after none causation h = cc
  append_canonical-ok input tables found after (some payload) none h = cc
  append_canonical-ok input tables found after (some payload) (some causation) h =
      let row : OutboxRow =
        row_of codec database input
          (next_sequence input.aggregate_type input.aggregate_id tables.sequences) payload causation
          (upsert_in input.aggregate_type input.aggregate_id tables) in
      let parts =
        append_row-ok row (upsert_in input.aggregate_type input.aggregate_id tables) found after
          (database.refuses insert_event (upsert_in input.aggregate_type input.aggregate_id tables))
          refl h in
      record {
        payload_json = payload;
        causation_json = causation;
        row = row;
        is_row = refl;
        after_is = parts.0;
        reads_back = parts.1;
      }

  pub append_operation-ok :
      (input : VersionedAppend) (tables : Tables) (found : OutboxRecord) (after : Tables)
      (refusal : Option StoreErrorCode)
      → database.refuses upsert_sequence tables ≡ refusal
      → append_operation codec database input tables ≡ (ok found, after)
      → Appends input tables found after
  unfolding append_operation
  append_operation-ok input tables found after (some code) e h =
      let g = rw (append_operation, e) at h in cc
  append_operation-ok input tables found after none e h =
      append_canonical-ok input tables found after (codec.canonical_json_string input.payload)
        (codec.canonical_json_string input.causation) (rw (append_operation, e) at h)
