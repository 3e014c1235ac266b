-- ===== src/SchemaTool/JsonDocument/Lookup.antt =====
-- What is found after a change of an array or an object
-- (rust/crates/schema-tool/src/json_pointer.rs).
use shittim.Base.{
  ℕ, suc, zero, ◌<◌, ◌≤◌, false, Bool-cases, inl, inr, some, ◌≡◌, refl, sym, ◌∙◌, arith, Text,
  text_eq, text_eq_iff, text_eq_refl, text_cmp, text_cmp-eq_iff, Ordering,
}
use shittim.Contracts.Json.{Json, Items, empty_array, item, Members, empty_object, member}
use shittim.SchemaTool.JsonDocument.{
  items_length, get_item, set_item, insert_item, get_member, insert_member,
}

pub get_item-set_item :
    (items : Items) (i : ℕ) (new : Json)
    → i < items_length items
    → (get_item (set_item items i new) i ≡ some new)
      × (items_length (set_item items i new) ≡ items_length items)
unfolding items_length get_item set_item
get_item-set_item empty_array i new h = ground arith
get_item-set_item (item value items) zero new h = (refl, refl)
get_item-set_item (item value items) (suc i) new h =
    let (found, same) = get_item-set_item items i new (omega arith) in (found, ground arith)

pub get_item-insert_item :
    (items : Items) (i : ℕ) (new : Json)
    → i ≤ items_length items
    → (get_item (insert_item items i new) i ≡ some new)
      × (items_length (insert_item items i new) ≡ suc (items_length items))
unfolding items_length get_item insert_item
get_item-insert_item items zero new h = (refl, refl)
get_item-insert_item empty_array (suc i) new h = ground arith
get_item-insert_item (item value items) (suc i) new h =
    let (found, same) = get_item-insert_item items i new (omega arith) in (found, ground arith)

text_eq-gt : (key name : Text) → text_cmp key name ≡ Ordering.gt → text_eq name key ≡ false
text_eq-gt key name e = elim (Bool-cases (text_eq name key)) [
  | inl same ↦ cc (sym e ∙ (text_cmp-eq_iff key name).1 (sym ((text_eq_iff name key).0 same)))
  | inr differs ↦ differs
]

-- What a member inserted before, at or behind another one leaves.
get_member-insert_step :
    (o : Ordering) (name key : Text) (value new : Json) (members : Members)
    → text_cmp key name ≡ o
    → get_member (insert_member members key new) key ≡ some new
    → get_member (insert_member (member name value members) key new) key ≡ some new
unfolding get_member insert_member
get_member-insert_step Ordering.lt name key value new members e found =
    rw (insert_member, e, text_eq_refl key)
get_member-insert_step Ordering.eq name key value new members e found =
    rw (insert_member, e, (text_eq_iff name key).1 (sym ((text_cmp-eq_iff key name).0 e)))
get_member-insert_step Ordering.gt name key value new members e found =
    rw (insert_member, e, text_eq-gt key name e, found)

pub get_member-insert_member :
    (members : Members) (key : Text) (new : Json)
    → get_member (insert_member members key new) key ≡ some new
unfolding get_member insert_member
get_member-insert_member empty_object key new = rw (text_eq_refl key)
get_member-insert_member (member name value members) key new =
    get_member-insert_step (text_cmp key name) name key value new members refl
      (get_member-insert_member members key new)

pub get_item-below :
    (items : Items) (i : ℕ)
    → i < items_length items
    → (found : Json) × (get_item items i ≡ some found)
unfolding items_length get_item
get_item-below empty_array i h = ground arith
get_item-below (item value items) zero h = (value, refl)
get_item-below (item value items) (suc i) h = get_item-below items i (omega arith)
