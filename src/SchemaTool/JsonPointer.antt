-- ===== src/SchemaTool/JsonPointer.antt =====
-- JSON Pointers in their encoded form (rust/crates/schema-tool/src/json_pointer.rs).
pub mod Escapes
pub mod RoundTrip
use shittim.Base.{
  ℕ, ◌+◌, ◌*◌, ◌-◌, Bool, true, false, not, ◌&&◌, List, [], ◌∷◌, ◌++◌, Result, ok, err, ◌>>=◌, ◌>>◌,
  map_err, try_map, is_empty, length, any, if◌then◌else◌, Text, codes, starts_with, replace_char,
  split, skip_first, decimal_usize, ◌==◌, ltb, leb, text_eq,
}

-- `JsonPointer(String)` is its text.
abbrev pub JsonPointer : Type 0
JsonPointer = Text

pub data JsonMutationOperation : Type 0 where
  add replace : JsonMutationOperation

-- The failures of the module among those of `SchemaToolError`. The sentences in `detail` are left
-- out.
pub data SchemaToolError : Type 0 where
  message : SchemaToolError
  pointer_syntax : (pointer : Text) → SchemaToolError
  pointer_evaluation : (pointer : Text) (token_index : ℕ) → SchemaToolError
  mutation :
      (operation : JsonMutationOperation) (pointer : Text) (token_index : ℕ) → SchemaToolError

-- The failures of `decode_segment`
pub data EscapeError : Type 0 where
  invalid_escape : (other : ℕ) → EscapeError
  truncated_escape : EscapeError

unfoldable pub encode_segment : Text → Text
unfolding replace_char
encode_segment segment = replace_char (replace_char segment b'~' (codes "~0")) b'/' (codes "~1")

-- `out.push(c)` before what follows
abbrev pub push : ℕ → Result EscapeError Text → Result EscapeError Text
push c (err failure) = err failure
push c (ok out) = ok (c ∷ out)

-- What follows a `~`
abbrev pub unescape : ℕ → Result EscapeError Text → Result EscapeError Text
unescape c rest =
    if c == b'0'
    then push b'~' rest
    else if c == b'1'
    then push b'/' rest
    else err (invalid_escape c)

unfoldable pub decode_segment : Text → Result EscapeError Text
decode_segment [] = ok []
decode_segment (c ∷ []) = if c == b'~' then err truncated_escape else ok (c ∷ [])
decode_segment (c ∷ d ∷ encoded) =
    let escaped = unescape d (decode_segment encoded) in
    let plain = push c (decode_segment (d ∷ encoded)) in if c == b'~' then escaped else plain

-- `JsonPointer::root`
abbrev pub root : JsonPointer
root = []

-- `JsonPointer::decoded_segments`
unfoldable pub decoded_segments : JsonPointer → Result SchemaToolError (List Text)
unfolding split try_map decode_segment
decoded_segments pointer =
    if is_empty pointer
    then ok []
    else try_map (λ segment. map_err (λ detail. pointer_syntax pointer) (decode_segment segment))
        (skip_first (split pointer b'/'))

-- `JsonPointer::parse`
unfoldable pub parse : Text → Result SchemaToolError JsonPointer
unfolding split try_map decode_segment starts_with
parse raw =
    if is_empty raw
    then ok root
    else if not (starts_with raw (codes "/"))
    then err (pointer_syntax raw)
    else (do
      segments ←
          try_map (λ segment. map_err (λ detail. pointer_syntax raw) (decode_segment segment))
            (skip_first (split raw b'/'))
      ok raw)

-- `JsonPointer::from_decoded_segments`
unfoldable pub from_decoded_segments : List Text → JsonPointer
unfolding encode_segment
from_decoded_segments [] = []
from_decoded_segments (segment ∷ segments) =
    b'/' ∷ (encode_segment segment ++ from_decoded_segments segments)

-- `JsonPointer::child`, `JsonPointer::index` and `JsonPointer::join`
unfoldable pub child : JsonPointer → Text → JsonPointer
unfolding encode_segment
child pointer segment =
    if is_empty pointer
    then b'/' ∷ encode_segment segment
    else pointer ++ (b'/' ∷ encode_segment segment)

unfoldable pub index : JsonPointer → ℕ → JsonPointer
unfolding child decimal_usize
index pointer i = child pointer (decimal_usize i)

unfoldable pub join_pointer : JsonPointer → JsonPointer → JsonPointer
join_pointer pointer other =
    if is_empty other then pointer else if is_empty pointer then other else pointer ++ other

unfoldable pub pointer_from_decoded_fragment : Text → Result SchemaToolError JsonPointer
unfolding parse
pointer_from_decoded_fragment fragment =
    if is_empty fragment
    then ok root
    else if not (starts_with fragment (codes "/"))
    then err message
    else parse fragment
