-- ===== src/Contracts/Json.antt =====
-- `serde_json::Value`: a JSON document. A number is known by its text, and an object is the list of
-- its members in the order of its map.
use shittim.Base.{Bool, Text}

mutual
  pub data Json : Type 0 where
    null : Json
    boolean : Bool → Json
    number : Text → Json
    string : Text → Json
    array : Items → Json
    object : Members → Json

  pub data Items : Type 0 where
    empty_array : Items
    item : Json → Items → Items

  pub data Members : Type 0 where
    empty_object : Members
    member : Text → Json → Members → Members
