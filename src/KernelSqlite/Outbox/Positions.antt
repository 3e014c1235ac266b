-- ===== src/KernelSqlite/Outbox/Positions.antt =====
-- The position that a record carries is that of its row
-- (rust/crates/kernel-sqlite/src/outbox.rs, `decode_versioned_parts`).
use shittim.Base.{
  ℕ, not, Option, none, some, List, [], ◌∷◌, ok, try_map, try_map-cons, and_then-Ensures,
  and_then-Ensures_also, Ensures, ok-injective, reject_if, ok_or, ltb, Text, decimal_usize, ◌≡◌,
  refl, sym, ap, ◌∙◌, subst, text_eq,
}
use shittim.KernelSqlite.Store.{stored_data_invalid}
use shittim.KernelSqlite.OutboxTables.{OutboxRow}
use shittim.KernelSqlite.Events.{
  OutboxRecord, TypedEventEnvelopeV2, EnvelopeValue, DecodeContext, EventCodec, stored,
  envelope_value, parse_delivered, decode_envelope, parse_canonical_object, stored_event_type,
  stored_aggregate_type, decode_error, payload_aggregate,
}
use shittim.KernelSqlite.Outbox.{decode_row}

-- The position of the last row.
unfoldable pub last_of : List OutboxRow → Option ℕ
last_of [] = none
last_of (row ∷ []) = some row.outbox_position
last_of (row ∷ more ∷ rows) = last_of (more ∷ rows)

-- The text of the position that the last record of a page carries.
unfoldable pub last_text : List OutboxRecord → Option Text
last_text [] = none
last_text (found ∷ []) = some found.envelope.outbox_position
last_text (found ∷ more ∷ page) = last_text (more ∷ page)

same_text : {s t : Text} → some s ≡ some t → t ≡ s
same_text h = cc

module _ (codec : EventCodec) where
  abbrev HasPosition : Text → TypedEventEnvelopeV2 → Type 0
  HasPosition text envelope = envelope.outbox_position ≡ text

  decode_envelope-Ensures :
      (value : EnvelopeValue) (context : DecodeContext)
      → Ensures (HasPosition value.outbox_position) (decode_envelope codec value context)
  unfolding decode_envelope
  decode_envelope-Ensures value context =
      let P = HasPosition value.outbox_position in
      and_then-Ensures P (reject_if (not (codec.validate_json value)) (decode_error context)) _
        (λ valid.
          and_then-Ensures P
            (ok_or (codec.causation_from_value value.input.causation) (decode_error context)) _
            (λ causation_ref.
              and_then-Ensures P
                (ok_or (codec.payload_from_value value.input.event_type value.input.payload)
                  (decode_error context))
                _
                (λ payload.
                  and_then-Ensures P
                    (reject_if (not (text_eq value.input.aggregate_id (payload_aggregate payload)))
                      (decode_error context))
                    _ (λ same. refl))))

  decode_row-Ensures :
      (row : OutboxRow)
      → Ensures
          (λ (found : OutboxRecord). HasPosition (decimal_usize row.outbox_position) found.envelope)
          (decode_row codec row)
  unfolding decode_row
  decode_row-Ensures row =
      let P : OutboxRecord → Type 0 =
        λ found. HasPosition (decimal_usize row.outbox_position) found.envelope in
      and_then-Ensures P (parse_canonical_object codec row.causation_json) _ (λ causation.
        and_then-Ensures P (parse_canonical_object codec row.payload_json) _ (λ payload.
          and_then-Ensures P (stored_event_type row.event_type) _ (λ event_type.
            and_then-Ensures P (stored_aggregate_type row.aggregate_type) _ (λ aggregate_type.
              and_then-Ensures P
                (ok_or (codec.parse_from_rfc3339 row.occurred_at) stored_data_invalid) _
                (λ occurred_at.
                  and_then-Ensures P
                    (reject_if (not (ltb 0 row.outbox_position)) stored_data_invalid) _
                    (λ positive.
                      let value =
                        envelope_value codec
                          (record {
                            event_id = row.event_id;
                            event_type = event_type;
                            aggregate_type = aggregate_type;
                            aggregate_id = row.aggregate_id;
                            occurred_at = occurred_at;
                            causation = causation;
                            correlation_id = row.correlation_id;
                            dedup_key = row.dedup_key;
                            payload = payload;
                          })
                          row.outbox_position row.sequence in
                      and_then-Ensures_also P (decode_envelope codec value stored) _
                        (HasPosition (decimal_usize row.outbox_position))
                        (decode_envelope-Ensures value stored)
                        (λ envelope same.
                          and_then-Ensures P (parse_delivered codec row.delivered_at) _
                            (λ delivered_at. same))))))))

  decode_row-position :
      (row : OutboxRow) (found : OutboxRecord)
      → decode_row codec row ≡ ok found
      → found.envelope.outbox_position ≡ decimal_usize row.outbox_position
  decode_row-position row found h =
      subst
        (Ensures (λ (record' : OutboxRecord).
          HasPosition (decimal_usize row.outbox_position) record'.envelope))
        h (decode_row-Ensures row)

  -- The text of a page's last record is the position of the last row that it is decoded from.
  pub last_text-last_of :
      (rows : List OutboxRow) (page : List OutboxRecord) (text : Text)
      → try_map (decode_row codec) rows ≡ ok page
      → last_text page ≡ some text
      → (position : ℕ) × (last_of rows ≡ some position) × (text ≡ decimal_usize position)
  unfolding try_map last_text last_of
  last_text-last_of [] page text h last =
      let empty : [] ≡ page = ok-injective h in
      let nothing : last_text [] ≡ some text = ap last_text empty ∙ last in cc
  last_text-last_of (row ∷ []) page text h last =
      let (found, others, head, tail, whole) = try_map-cons (decode_row codec) row [] page h in
      let alone : page ≡ found ∷ [] =
        whole ∙ ap (λ (l : List OutboxRecord). found ∷ l) (sym (ok-injective tail)) in
      let text_of : last_text (found ∷ []) ≡ some text = ap last_text (sym alone) ∙ last in
      (row.outbox_position, refl, same_text text_of ∙ decode_row-position row found head)
  last_text-last_of (row ∷ more ∷ rows) page text h last =
      let (found, others, head, tail, whole) =
        try_map-cons (decode_row codec) row (more ∷ rows) page h in
      let (next, later, next_head, next_tail, next_whole) =
        try_map-cons (decode_row codec) more rows others tail in
      let page_is : page ≡ found ∷ next ∷ later =
        whole ∙ ap (λ (l : List OutboxRecord). found ∷ l) next_whole in
      last_text-last_of (more ∷ rows) others text tail
        (ap last_text next_whole ∙ ap last_text (sym page_is) ∙ last)
