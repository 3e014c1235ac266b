-- ===== src/KernelSqlite/Events.antt =====
-- Events as the Outbox takes, stores and returns them (rust/crates/kernel-sqlite/src/outbox.rs:
-- the types, `active_input` and `decode_versioned_parts` with what they call).
use shittim.Base.{
  ℕ, Bool, true, false, not, ◌||◌, Option, none, some, List, [], ◌∷◌, is_empty, Result, ok, err,
  ◌>>=◌, ◌>>◌, reject_if, ok_or, if◌then◌else◌, Text, codes, text_eq, decimal_usize, ℤ,
}
use shittim.Contracts.Json.{Json, object}
use shittim.KernelSqlite.Store.{
  StoreErrorCode, contract_invalid, serialization_failed, stored_data_invalid,
}

pub data CausationRefV2 : Type 0 where
  command_request event action : (id : Text) → CausationRefV2
  action_transition : (action_id : Text) (transition_id : Text) → CausationRefV2

-- A payload is the identifier that the store reads from it and its other fields, which it only
-- copies.
pub data EventEnvelopeV2Payload : Type 0 where
  task_created task_state_changed : (task_id : Text) (body : Json) → EventEnvelopeV2Payload
  action_state_changed : (action_id : Text) (body : Json) → EventEnvelopeV2Payload
  approval_state_changed : (approval_chain_id : Text) (body : Json) → EventEnvelopeV2Payload
  stop_fence_activated : (body : Json) → EventEnvelopeV2Payload

-- A Uuid is its canonical text.
pub data EventAggregateId : Type 0 where
  task_aggregate action_aggregate approval_chain_aggregate : Text → EventAggregateId
  stop_fence_global : EventAggregateId

pub record PendingActiveEventV2 : Type 0 where
  pub event_id : Text
  pub aggregate_id : EventAggregateId
  pub occurred_at : ℤ
  pub causation_ref : CausationRefV2
  pub correlation_id : Text
  pub dedup_key : Text
  pub payload : EventEnvelopeV2Payload

-- `schema_version` is 2.
pub record VersionedAppend : Type 0 where
  pub event_id : Text
  pub event_type : Text
  pub aggregate_type : Text
  pub aggregate_id : Text
  pub occurred_at : ℤ
  pub causation : Json
  pub correlation_id : Text
  pub dedup_key : Text
  pub payload : Json

-- The object of `envelope_value`
pub record EnvelopeValue : Type 0 where
  pub input : VersionedAppend
  pub sequence : ℕ
  pub outbox_position : Text
  pub occurred_at : Text

pub record TypedEventEnvelopeV2 : Type 0 where
  pub aggregate_id : Text
  pub aggregate_type : Text
  pub causation_ref : CausationRefV2
  pub correlation_id : Text
  pub dedup_key : Text
  pub event_id : Text
  pub occurred_at : Text
  pub outbox_position : Text
  pub sequence : ℕ
  pub type_ : Text
  pub payload : EventEnvelopeV2Payload

pub record OutboxRecord : Type 0 where
  pub envelope : TypedEventEnvelopeV2
  pub delivered_at : Option ℤ

-- What uuid, chrono, serde, the canonicalizer and the Schema validator do. An instant is an integer
-- number of microseconds.
pub record EventCodec : Type 0 where
  pub parse_uuid : Text → Option Text
  pub to_rfc3339 : ℤ → Text
  pub parse_from_rfc3339 : Text → Option ℤ
  pub from_str : Text → Option Json
  pub canonical_json_string : Json → Option Text
  pub causation_to_value : CausationRefV2 → Option Json
  pub causation_from_value : Json → Option CausationRefV2
  pub payload_to_value : EventEnvelopeV2Payload → Option Json
  pub payload_from_value : Text → Json → Option EventEnvelopeV2Payload
  pub validate_json : EnvelopeValue → Bool

pub data DecodeContext : Type 0 where
  caller stored : DecodeContext

abbrev pub decode_error : DecodeContext → StoreErrorCode
decode_error caller = contract_invalid
decode_error stored = stored_data_invalid

-- The identifier that the aggregate of a payload has
abbrev pub payload_aggregate : EventEnvelopeV2Payload → Text
payload_aggregate (task_created id body) = id
payload_aggregate (task_state_changed id body) = id
payload_aggregate (action_state_changed id body) = id
payload_aggregate (approval_state_changed id body) = id
payload_aggregate (stop_fence_activated body) = codes "global"

abbrev pub is_canonical : Option Text → Text → Bool
is_canonical none text = false
is_canonical (some canonical) text = text_eq canonical text

abbrev pub is_object : Json → Bool
is_object (object members) = true
is_object _ = false

-- `EVENT_ACTIVE_BINDINGS`: the event type and the aggregate type of a payload
abbrev pub event_binding : EventEnvelopeV2Payload → Text × Text
event_binding (task_created id body) = (codes "task.created", codes "task")
event_binding (task_state_changed id body) = (codes "task.state_changed", codes "task")
event_binding (action_state_changed id body) = (codes "action.state_changed", codes "action")
event_binding (approval_state_changed id body) =
    (codes "approval.state_changed", codes "approval_chain")
event_binding (stop_fence_activated body) = (codes "stop_fence.activated", codes "stop_fence")

-- `stored_event_type` and `stored_aggregate_type`
abbrev pub one_of : Text → List Text → Result StoreErrorCode Text
one_of value [] = err stored_data_invalid
one_of value (known ∷ candidates) =
    if text_eq known value then ok known else one_of value candidates

abbrev pub stored_event_type : Text → Result StoreErrorCode Text
stored_event_type value = one_of value (
    codes "task.created"
    ∷ codes "task.state_changed"
    ∷ codes "action.state_changed"
    ∷ codes "approval.state_changed"
    ∷ codes "stop_fence.activated"
    ∷ [])

abbrev pub stored_aggregate_type : Text → Result StoreErrorCode Text
stored_aggregate_type value =
    one_of value (codes "task" ∷ codes "action" ∷ codes "approval_chain" ∷ codes "stop_fence" ∷ [])

module _ (codec : EventCodec) where
  abbrev pub envelope_value : VersionedAppend → ℕ → ℕ → EnvelopeValue
  envelope_value input position sequence = record {
    input = input;
    sequence = sequence;
    outbox_position = decimal_usize position;
    occurred_at = codec.to_rfc3339 input.occurred_at;
  }

  unfoldable pub decode_envelope :
      EnvelopeValue → DecodeContext → Result StoreErrorCode TypedEventEnvelopeV2
  unfolding text_eq
  decode_envelope value context = do
    reject_if (not (codec.validate_json value)) (decode_error context)
    causation_ref ← ok_or (codec.causation_from_value value.input.causation) (decode_error context)
    payload ←
        ok_or (codec.payload_from_value value.input.event_type value.input.payload)
          (decode_error context)
    reject_if (not (text_eq value.input.aggregate_id (payload_aggregate payload)))
        (decode_error context)
    ok (record {
      aggregate_id = value.input.aggregate_id;
      aggregate_type = value.input.aggregate_type;
      causation_ref = causation_ref;
      correlation_id = value.input.correlation_id;
      dedup_key = value.input.dedup_key;
      event_id = value.input.event_id;
      occurred_at = value.occurred_at;
      outbox_position = value.outbox_position;
      sequence = value.sequence;
      type_ = value.input.event_type;
      payload = payload;
    })

  unfoldable pub prevalidate : VersionedAppend → Result StoreErrorCode (Unit {0})
  unfolding decode_envelope
  prevalidate input = do
    reject_if (is_empty input.correlation_id || is_empty input.dedup_key) contract_invalid
    envelope ← decode_envelope (envelope_value input 1 0) caller
    ok tt

  -- The `match (binding_index, event.aggregate_id)`
  abbrev pub matching_id : Option Text → Text → Result StoreErrorCode Text
  matching_id none id = err contract_invalid
  matching_id (some payload_id) id = if text_eq id payload_id then ok id else err contract_invalid

  unfoldable pub aggregate_of :
      EventEnvelopeV2Payload → EventAggregateId → Result StoreErrorCode Text
  unfolding text_eq
  aggregate_of (task_created task_id body) (task_aggregate id) =
      matching_id (codec.parse_uuid task_id) id
  aggregate_of (task_state_changed task_id body) (task_aggregate id) =
      matching_id (codec.parse_uuid task_id) id
  aggregate_of (action_state_changed action_id body) (action_aggregate id) =
      matching_id (codec.parse_uuid action_id) id
  aggregate_of (approval_state_changed chain_id body) (approval_chain_aggregate id) =
      matching_id (codec.parse_uuid chain_id) id
  aggregate_of (stop_fence_activated body) stop_fence_global = ok (codes "global")
  aggregate_of _ _ = err contract_invalid

  unfoldable pub active_input : PendingActiveEventV2 → Result StoreErrorCode VersionedAppend
  unfolding aggregate_of prevalidate
  active_input pending = do
    reject_if (is_empty pending.correlation_id || is_empty pending.dedup_key) contract_invalid
    aggregate_id ← aggregate_of pending.payload pending.aggregate_id
    payload ← ok_or (codec.payload_to_value pending.payload) serialization_failed
    causation ← ok_or (codec.causation_to_value pending.causation_ref) serialization_failed
    let input : VersionedAppend = record {
      event_id = pending.event_id;
      event_type = (event_binding pending.payload).0;
      aggregate_type = (event_binding pending.payload).1;
      aggregate_id = aggregate_id;
      occurred_at = pending.occurred_at;
      causation = causation;
      correlation_id = pending.correlation_id;
      dedup_key = pending.dedup_key;
      payload = payload;
    }
    prevalidate input
    ok input

  unfoldable pub parse_canonical_object : Text → Result StoreErrorCode Json
  unfolding text_eq
  parse_canonical_object stored_text = do
    value ← ok_or (codec.from_str stored_text) stored_data_invalid
    reject_if
        (not (is_object value)
          || not (is_canonical (codec.canonical_json_string value) stored_text))
        stored_data_invalid
    ok value

  -- `delivered_at.map(parse_datetime).transpose()`
  abbrev pub parse_delivered : Option Text → Result StoreErrorCode (Option ℤ)
  parse_delivered none = ok none
  parse_delivered (some value) = do
    instant ← ok_or (codec.parse_from_rfc3339 value) stored_data_invalid
    ok (some instant)
