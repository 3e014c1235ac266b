-- ===== src/SchemaTool/JsonMutation.antt =====
-- Selection and mutation of JSON documents by pointers
-- (rust/crates/schema-tool/src/json_pointer.rs).
pub mod Steps
pub mod Select
use shittim.Base.{
  ℕ, suc, zero, ◌+◌, ◌*◌, ◌-◌, Bool, true, false, not, ◌&&◌, Option, none, some, List, [], ◌∷◌,
  Result, ok, err, ◌>>=◌, ◌>>◌, map_err, is_empty, length, if◌then◌else◌, is_present, Text, codes,
  starts_with, ◌==◌, ltb, leb, text_eq, text_cmp, Ordering,
}
use shittim.Contracts.Json.{
  Json, null, boolean, number, string, array, object, Items, empty_array, item, Members,
  empty_object, member,
}
use shittim.SchemaTool.JsonDocument.{
  IndexError, parse_array_index_token, items_length, get_item, set_item, insert_item, get_member,
  insert_member,
}
use shittim.SchemaTool.JsonPointer.{
  JsonPointer, JsonMutationOperation, add, replace, SchemaToolError, message, pointer_evaluation,
  mutation, decoded_segments, parse,
}

-- `TraversalStep`
pub data TraversalStep : Type 0 where
  object_member : Text → TraversalStep
  array_index : ℕ → TraversalStep

abbrev index_step : Items → Result IndexError ℕ → Option TraversalStep
index_step items (err failure) = none
index_step items (ok i) = if ltb i (items_length items) then some (array_index i) else none

-- `classify_traversal_step`, without the sentence of its failure
unfoldable pub classify_traversal_step : Json → Text → Option TraversalStep
unfolding get_member parse_array_index_token items_length
classify_traversal_step (object members) token =
    if is_present (get_member members token) then some (object_member token) else none
classify_traversal_step (array items) token = index_step items (parse_array_index_token token)
classify_traversal_step null token = none
classify_traversal_step (boolean b) token = none
classify_traversal_step (number n) token = none
classify_traversal_step (string s) token = none

-- `descend`, which is called only with a step that was classified against the value: any other
-- step panics
unfoldable pub descend : Json → TraversalStep → Option Json
unfolding get_member get_item
descend (object members) (object_member name) = get_member members name
descend (array items) (array_index i) = get_item items i
descend value step = none

-- Writing back, through the `&mut Value` of `descend`, what became of the value at a step
unfoldable pub put_back : Json → TraversalStep → Json → Json
unfolding insert_member set_item
put_back (object members) (object_member name) new = object (insert_member members name new)
put_back (array items) (array_index i) new = array (set_item items i new)
put_back value step new = value

-- The value at a step and the step, or nothing
abbrev pub enter : Json → Option TraversalStep → Option (TraversalStep × Json)
enter value none = none
enter value (some step) = elim (descend value step) [
  | none ↦ none
  | some inner ↦ some (step, inner)
]

-- `traverse_decoded` over `&Value`. A failure is the index of its token, counted from `depth`.
unfoldable pub traverse_decoded : Json → List Text → ℕ → Result ℕ Json
unfolding classify_traversal_step descend
traverse_decoded value [] depth = ok value
traverse_decoded value (token ∷ segments) depth =
    elim (enter value (classify_traversal_step value token)) [
      | none ↦ err (depth + 1)
      | some (step, inner) ↦ traverse_decoded inner segments (depth + 1)
    ]

-- `select_decoded_segments`, `select_json_value` and `select_json_value_at_pointer`
unfoldable pub select_decoded_segments :
    Json → JsonPointer → List Text → Result SchemaToolError Json
unfolding traverse_decoded
select_decoded_segments document pointer segments =
    map_err (λ token_index. pointer_evaluation pointer token_index)
      (traverse_decoded document segments 0)

unfoldable pub select_json_value : Json → JsonPointer → Result SchemaToolError Json
unfolding decoded_segments select_decoded_segments
select_json_value document pointer = do
  segments ← decoded_segments pointer
  select_decoded_segments document pointer segments

unfoldable pub select_json_value_at_pointer : Json → Text → Result SchemaToolError Json
unfolding parse select_json_value
select_json_value_at_pointer document raw_pointer = do
  pointer ← parse raw_pointer
  select_json_value document pointer

-- `segments.split_last()`, as the parent's segments and the last one
unfoldable pub split_last : List Text → Option (List Text × Text)
split_last [] = none
split_last (last ∷ []) = some ([], last)
split_last (segment ∷ more ∷ segments) = elim (split_last (more ∷ segments)) [
  | none ↦ none
  | some (parents, last) ↦ some (segment ∷ parents, last)
]

-- `traverse_decoded` over `&mut Value`: the value it comes to is changed by `change` where it
-- stands.
unfoldable pub mutate_decoded :
    (Json → Result SchemaToolError Json)
    → (ℕ → SchemaToolError)
    → Json
    → List Text
    → ℕ
    → Result SchemaToolError Json
unfolding classify_traversal_step descend put_back
mutate_decoded change failure value [] depth = change value
mutate_decoded change failure value (token ∷ segments) depth =
    elim (enter value (classify_traversal_step value token)) [
      | none ↦ err (failure (depth + 1))
      | some (step, inner) ↦ (do
        changed ← mutate_decoded change failure inner segments (depth + 1)
        ok (put_back value step changed))
    ]

module _ (failure : SchemaToolError) (last : Text) (value : Json) where
  abbrev pub mutate_members : JsonMutationOperation → Members → Result SchemaToolError Json
  mutate_members add members =
      if is_present (get_member members last)
      then err failure
      else ok (object (insert_member members last value))
  mutate_members replace members =
      if not (is_present (get_member members last))
      then err failure
      else ok (object (insert_member members last value))

  abbrev pub mutate_items :
      JsonMutationOperation → Items → Result IndexError ℕ → Result SchemaToolError Json
  mutate_items other items (err detail) = err failure
  mutate_items add items (ok i) =
      if ltb (items_length items) i then err failure else ok (array (insert_item items i value))
  mutate_items replace items (ok i) =
      if not (ltb i (items_length items)) then err failure else ok (array (set_item items i value))

  -- The `match parent` of `apply_json_mutation`, with the one failure of its last token
  unfoldable pub mutate_parent : JsonMutationOperation → Json → Result SchemaToolError Json
  unfolding get_member insert_member parse_array_index_token items_length insert_item set_item
  mutate_parent operation (object members) = mutate_members operation members
  mutate_parent operation (array items) =
      mutate_items operation items (parse_array_index_token last)
  mutate_parent operation null = err failure
  mutate_parent operation (boolean b) = err failure
  mutate_parent operation (number n) = err failure
  mutate_parent operation (string s) = err failure

-- The mutation of the root
abbrev pub mutate_root : JsonMutationOperation → JsonPointer → Json → Result SchemaToolError Json
mutate_root add pointer value = err (mutation add pointer 0)
mutate_root replace pointer value = ok value

-- What follows the decoding of the segments. A pointer that begins with `/` has a last segment;
-- the `expect` on any other is `message`.
unfoldable pub mutate_segments :
    JsonMutationOperation → JsonPointer → Json → List Text → Json → Result SchemaToolError Json
unfolding split_last mutate_decoded mutate_parent
mutate_segments operation pointer document segments value = elim (split_last segments) [
  | none ↦ err message
  | some (parents, last) ↦
      mutate_decoded
        (mutate_parent (mutation operation pointer (length segments)) last value operation)
        (mutation operation pointer) document parents 0
]

-- The document that `apply_json_mutation` leaves; a failure leaves it as it was.
unfoldable pub apply_json_mutation :
    Json → JsonMutationOperation → JsonPointer → Json → Result SchemaToolError Json
unfolding decoded_segments mutate_segments
apply_json_mutation document operation pointer value =
    if is_empty pointer then mutate_root operation pointer value else (do
      segments ← decoded_segments pointer
      mutate_segments operation pointer document segments value)
