-- ===== src/SchemaTool/JsonMutation/Select.antt =====
-- What a selection finds after a mutation (rust/crates/schema-tool/src/json_pointer.rs,
-- `apply_json_mutation` and `select_json_value`).
use shittim.Base.{
  ℕ, ◌+◌, ◌<◌, Bool-cases, some, Option-cases, List, [], ◌∷◌, ◌++◌, length, is_present, Result, ok,
  err, and_then-eq-ok, ok-injective, ◌≡◌, ◌⊎◌, inl, inr, refl, sym, ap, ◌∙◌, arith, ltb, Text,
}
use shittim.Contracts.Json.{Json, Items, Members, null, boolean, number, string, array, object}
use shittim.SchemaTool.JsonPointer.{
  JsonPointer, JsonMutationOperation, add, replace, SchemaToolError, mutation, decoded_segments,
}
use shittim.SchemaTool.JsonDocument.{
  IndexError, parse_array_index_token, items_length, get_item, set_item, insert_item, get_member,
  insert_member,
}
use shittim.SchemaTool.JsonDocument.Lookup.{
  get_item-below, get_item-set_item, get_item-insert_item, get_member-insert_member,
}
use shittim.SchemaTool.JsonMutation.{
  TraversalStep, classify_traversal_step, put_back, enter, traverse_decoded, select_json_value,
  select_decoded_segments, split_last, mutate_decoded, mutate_parent, mutate_members, mutate_items,
  mutate_segments, apply_json_mutation,
}
use shittim.SchemaTool.JsonMutation.Steps.{
  some-injective, enter-object, enter-array, enter-put_back,
}

traverse-enter :
    (value : Json) (token : Text) (segments : List Text) (depth : ℕ) (step : TraversalStep)
    (inner : Json)
    → enter value (classify_traversal_step value token) ≡ some (step, inner)
    → traverse_decoded value (token ∷ segments) depth ≡ traverse_decoded inner segments (depth + 1)
unfolding traverse_decoded
traverse-enter value token segments depth step inner h = rw (traverse_decoded, h)

-- What the mutation of the parent leaves, the last token finds.
module _ (failure : SchemaToolError) (last : Text) (new : Json) (depth : ℕ) where
  traverse-object :
      (members : Members) (changed : Json)
      → object (insert_member members last new) ≡ changed
      → traverse_decoded changed (last ∷ []) depth ≡ ok new
  unfolding traverse_decoded
  traverse-object members changed h =
      ap (λ value. traverse_decoded value (last ∷ []) depth) (sym h)
      ∙ traverse-enter (object (insert_member members last new)) last [] depth _ new (
          enter-object (insert_member members last new) last new
            (get_member-insert_member members last new))

  traverse-array :
      (items : Items) (i : ℕ) (changed : Json)
      → parse_array_index_token last ≡ ok i
      → (get_item items i ≡ some new) × (i < items_length items)
      → array items ≡ changed
      → traverse_decoded changed (last ∷ []) depth ≡ ok new
  unfolding traverse_decoded
  traverse-array items i changed parsed (found, below) h =
      ap (λ value. traverse_decoded value (last ∷ []) depth) (sym h)
      ∙ traverse-enter (array items) last [] depth _ new
          (enter-array items last i new parsed below found)

  traverse-mutate_members :
      (operation : JsonMutationOperation) (members : Members) (changed : Json)
      → mutate_members failure last new operation members ≡ ok changed
      → traverse_decoded changed (last ∷ []) depth ≡ ok new
  traverse-mutate_members add members changed h =
      elim (Bool-cases (is_present (get_member members last))) [
        | inl there ↦ cc (rw there at h)
        | inr missing ↦ traverse-object members changed (ok-injective (rw missing at h))
      ]
  traverse-mutate_members replace members changed h =
      elim (Bool-cases (is_present (get_member members last))) [
        | inl there ↦ traverse-object members changed (ok-injective (rw there at h))
        | inr missing ↦ cc (rw missing at h)
      ]

  traverse-mutate_items :
      (operation : JsonMutationOperation) (items : Items) (result : Result IndexError ℕ)
      (changed : Json)
      → parse_array_index_token last ≡ result
      → mutate_items failure last new operation items result ≡ ok changed
      → traverse_decoded changed (last ∷ []) depth ≡ ok new
  traverse-mutate_items operation items (err detail) changed parsed h = cc
  traverse-mutate_items add items (ok i) changed parsed h =
      elim (Bool-cases (ltb (items_length items) i)) [
        | inl beyond ↦ cc (rw beyond at h)
        | inr within ↦
            let (found, longer) = get_item-insert_item items i new (ground arith) in
            traverse-array (insert_item items i new) i changed parsed (found, ground arith)
              (ok-injective (rw within at h))
      ]
  traverse-mutate_items replace items (ok i) changed parsed h =
      elim (Bool-cases (ltb i (items_length items))) [
        | inl below ↦
            let (found, same) = get_item-set_item items i new (ground arith) in
            traverse-array (set_item items i new) i changed parsed (found, ground arith)
              (ok-injective (rw below at h))
        | inr beyond ↦ cc (rw beyond at h)
      ]

  traverse-mutate_parent :
      (operation : JsonMutationOperation) (parent changed : Json)
      → mutate_parent failure last new operation parent ≡ ok changed
      → traverse_decoded changed (last ∷ []) depth ≡ ok new
  unfolding mutate_parent
  traverse-mutate_parent operation (object members) changed h =
      traverse-mutate_members operation members changed h
  traverse-mutate_parent operation (array items) changed h =
      traverse-mutate_items operation items (parse_array_index_token last) changed refl h
  traverse-mutate_parent operation null changed h = cc
  traverse-mutate_parent operation (boolean b) changed h = cc
  traverse-mutate_parent operation (number n) changed h = cc
  traverse-mutate_parent operation (string s) changed h = cc

-- A traversal that changes a value takes the steps of the traversals to it, before and after.
module _ (change : Json → Result SchemaToolError Json) (failure : ℕ → SchemaToolError)
    (tail : List Text) where
  mutate_decoded-steps :
      (segments : List Text) (value changed : Json) (depth : ℕ)
      → mutate_decoded change failure value segments depth ≡ ok changed
      → (parent : Json) × (parent' : Json) × (depth' : ℕ) × (change parent ≡ ok parent')
        × (traverse_decoded value (segments ++ tail) depth ≡ traverse_decoded parent tail depth')
        × (traverse_decoded changed (segments ++ tail) depth ≡ traverse_decoded parent' tail depth')
  unfolding mutate_decoded
  mutate_decoded-steps [] value changed depth h = (value, changed, depth, h, refl, refl)
  mutate_decoded-steps (token ∷ segments) value changed depth h =
      elim (Option-cases (enter value (classify_traversal_step value token))) [
        | inl missing ↦ cc (rw (mutate_decoded, missing) at h)
        | inr ((step, inner), entered) ↦
            let (new, e, h1) =
              and_then-eq-ok (mutate_decoded change failure inner segments (depth + 1)) _
                (rw (mutate_decoded, entered) at h) in
            let (parent, parent', depth', changes, before, after) =
              mutate_decoded-steps segments inner new (depth + 1) e in
            let put : put_back value step new ≡ changed = ok-injective h1 in
            (
              parent,
              parent',
              depth',
              changes,
              traverse-enter value token (segments ++ tail) depth step inner entered ∙ before,
              ap (λ v. traverse_decoded v (token ∷ (segments ++ tail)) depth) (sym put)
                  ∙ (traverse-enter (put_back value step new) token (segments ++ tail) depth step
                        new (enter-put_back value token step inner new entered)
                      ∙ after),
            )
      ]

split_last-append :
    (segments parents : List Text) (last : Text)
    → split_last segments ≡ some (parents, last)
    → segments ≡ parents ++ (last ∷ [])
unfolding split_last
split_last-append [] parents last h = cc
split_last-append (segment ∷ []) parents last h =
    let pair = some-injective h in ap (λ p. p.0 ++ (p.1 ∷ [])) pair
split_last-append (segment ∷ more ∷ segments) parents last h =
    elim (Option-cases (split_last (more ∷ segments))) [
      | inl missing ↦ cc (rw (split_last, missing) at h)
      | inr ((parents', last'), e) ↦
          let pair = some-injective (rw (split_last, e) at h) in
          ap (◌∷◌ segment) (split_last-append (more ∷ segments) parents' last' e)
          ∙ ap (λ p. p.0 ++ (p.1 ∷ [])) pair
    ]

-- A replacement is of a value that the last token finds.
module _ (failure : SchemaToolError) (last : Text) (new changed : Json) (depth : ℕ) where
  traverse-replaced_item :
      (items : Items) (result : Result IndexError ℕ)
      → parse_array_index_token last ≡ result
      → mutate_items failure last new replace items result ≡ ok changed
      → (old : Json) × (traverse_decoded (array items) (last ∷ []) depth ≡ ok old)
  unfolding traverse_decoded
  traverse-replaced_item items (err detail) parsed h = cc
  traverse-replaced_item items (ok i) parsed h = elim (Bool-cases (ltb i (items_length items))) [
    | inl below ↦
        let (old, found) = get_item-below items i (ground arith) in
        (
          old,
          traverse-enter (array items) last [] depth _ old
              (enter-array items last i old parsed (ground arith) found),
        )
    | inr beyond ↦ cc (rw beyond at h)
  ]

  traverse-replaced :
      (parent : Json)
      → mutate_parent failure last new replace parent ≡ ok changed
      → (old : Json) × (traverse_decoded parent (last ∷ []) depth ≡ ok old)
  unfolding mutate_parent traverse_decoded
  traverse-replaced (object members) h = elim (Option-cases (get_member members last)) [
    | inl missing ↦ cc (rw missing at h)
    | inr (old, found) ↦ (
      old,
      traverse-enter (object members) last [] depth _ old (enter-object members last old found),
    )
  ]
  traverse-replaced (array items) h =
      traverse-replaced_item items (parse_array_index_token last) refl h
  traverse-replaced null h = cc
  traverse-replaced (boolean b) h = cc
  traverse-replaced (number n) h = cc
  traverse-replaced (string s) h = cc

-- What the mutation below the root does to the traversals of its segments.
traverse-mutate_segments :
    (operation : JsonMutationOperation) (pointer : JsonPointer) (document changed value : Json)
    (segments : List Text)
    → mutate_segments operation pointer document segments value ≡ ok changed
    → (traverse_decoded changed segments 0 ≡ ok value)
      × ((operation ≡ add) ⊎ ((old : Json) × (traverse_decoded document segments 0 ≡ ok old)))
unfolding mutate_segments
traverse-mutate_segments operation pointer document changed value segments h =
    elim (Option-cases (split_last segments)) [
      | inl missing ↦ cc (rw (mutate_segments, missing) at h)
      | inr ((parents, last), e) ↦
          let failure = mutation operation pointer (length segments) in
          let (parent, parent', depth, changes, before, after) =
            mutate_decoded-steps (mutate_parent failure last value operation)
              (mutation operation pointer) (last ∷ []) parents document changed 0
              (rw (mutate_segments, e) at h) in
          let parts = split_last-append segments parents last e in
          (
            ap (λ s. traverse_decoded changed s 0) parts
                ∙ (after
                    ∙ traverse-mutate_parent failure last value depth operation parent parent'
                        changes),
            go operation parent parent' depth failure last changes
                (ap (λ s. traverse_decoded document s 0) parts ∙ before),
          )
    ]
  where
    go :
        (other : JsonMutationOperation) (parent parent' : Json) (depth : ℕ)
        (failure : SchemaToolError) (last : Text)
        → mutate_parent failure last value other parent ≡ ok parent'
        → traverse_decoded document segments 0 ≡ traverse_decoded parent (last ∷ []) depth
        → (other ≡ add) ⊎ ((old : Json) × (traverse_decoded document segments 0 ≡ ok old))
    go add parent parent' depth failure last changes same = inl refl
    go replace parent parent' depth failure last changes same =
        let (old, found) = traverse-replaced failure last value parent' depth parent changes in
        inr (old, same ∙ found)

select_json_value-traverse :
    (document found : Json) (pointer : JsonPointer) (segments : List Text)
    → decoded_segments pointer ≡ ok segments
    → traverse_decoded document segments 0 ≡ ok found
    → select_json_value document pointer ≡ ok found
unfolding select_json_value
select_json_value-traverse document found pointer segments decoded h =
    rw (select_json_value, decoded, select_decoded_segments, h)

-- What a mutation puts at a pointer, the selection at that pointer finds in the new document, and
-- a replacement is only of a value that the selection finds in the old one.
pub select_json_value-apply_json_mutation :
    (document changed value : Json) (operation : JsonMutationOperation) (pointer : JsonPointer)
    → apply_json_mutation document operation pointer value ≡ ok changed
    → (select_json_value changed pointer ≡ ok value)
      × ((operation ≡ add) ⊎ ((old : Json) × (select_json_value document pointer ≡ ok old)))
unfolding apply_json_mutation select_json_value
select_json_value-apply_json_mutation document changed value add [] h = cc
select_json_value-apply_json_mutation document changed value replace [] h =
    (ap ok (sym (ok-injective h)), inr (document, refl))
select_json_value-apply_json_mutation document changed value operation (c ∷ rest) h =
    let (segments, decoded, h1) = and_then-eq-ok (decoded_segments (c ∷ rest)) _ h in
    let (after, before) =
      traverse-mutate_segments operation (c ∷ rest) document changed value segments h1 in
    (
      select_json_value-traverse changed value (c ∷ rest) segments decoded after,
      elim before [
        | inl adds ↦ inl adds
        | inr (old, found) ↦
            inr (old, select_json_value-traverse document old (c ∷ rest) segments decoded found)
      ],
    )
