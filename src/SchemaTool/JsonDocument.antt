-- ===== src/SchemaTool/JsonDocument.antt =====
-- Array index tokens, arrays and objects of JSON documents
-- (rust/crates/schema-tool/src/json_pointer.rs, `parse_array_index_token` and the calls on
-- `serde_json::Value`).
pub mod Lookup
use shittim.Base.{
  ℕ, suc, zero, ◌+◌, ◌*◌, ◌-◌, Bool, true, false, not, ◌&&◌, Option, none, some, List, [], ◌∷◌,
  Result, ok, err, is_empty, length, if◌then◌else◌, Text, codes, starts_with, ltb, leb, text_eq,
  text_cmp, Ordering, all_digits, decimal_value,
}
use shittim.Contracts.Json.{Json, Items, empty_array, item, Members, empty_object, member}

-- Why a token is no index
pub data IndexError : Type 0 where
  empty_token dash_token not_decimal leading_zero out_of_range : IndexError

unfoldable pub parse_array_index_token : Text → Result IndexError ℕ
unfolding text_eq starts_with decimal_value
parse_array_index_token token =
    if is_empty token
    then err empty_token
    else if text_eq token (codes "-")
    then err dash_token
    else if not (all_digits token)
    then err not_decimal
    else if ltb 1 (length token) && starts_with token (codes "0")
    then err leading_zero
    else if ltb (decimal_value 0 token) 18446744073709551616
    then ok (decimal_value 0 token)
    else err out_of_range

-- `items.len()`, `items.get(index)`, `items[index] = value` and `items.insert(index, value)`
unfoldable pub items_length : Items → ℕ
items_length empty_array = 0
items_length (item value items) = suc (items_length items)

unfoldable pub get_item : Items → ℕ → Option Json
get_item empty_array i = none
get_item (item value items) zero = some value
get_item (item value items) (suc i) = get_item items i

unfoldable pub set_item : Items → ℕ → Json → Items
set_item empty_array i new = empty_array
set_item (item value items) zero new = item new items
set_item (item value items) (suc i) new = item value (set_item items i new)

unfoldable pub insert_item : Items → ℕ → Json → Items
insert_item items zero new = item new items
insert_item empty_array (suc i) new = item new empty_array
insert_item (item value items) (suc i) new = item value (insert_item items i new)

-- `map.get(key)` and `map.insert(key, value)` on a map that keeps its keys in order
unfoldable pub get_member : Members → Text → Option Json
unfolding text_eq
get_member empty_object key = none
get_member (member name value members) key =
    let rest = get_member members key in if text_eq name key then some value else rest

unfoldable pub insert_member : Members → Text → Json → Members
unfolding text_cmp
insert_member empty_object key new = member key new empty_object
insert_member (member name value members) key new =
    let rest = insert_member members key new in
    elim (text_cmp key name) [
      | Ordering.lt ↦ member key new (member name value members)
      | Ordering.eq ↦ member name new members
      | Ordering.gt ↦ member name value rest
    ]
