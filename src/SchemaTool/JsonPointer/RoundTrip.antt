-- ===== src/SchemaTool/JsonPointer/RoundTrip.antt =====
-- Pointers and their segments (rust/crates/schema-tool/src/json_pointer.rs).
use shittim.Base.{
  ℕ, false, Bool-cases, ==_iff, ◌==◌, List, [], ◌∷◌, ◌++◌, map, All, Result, ok, err, map_err,
  try_map, and_then-eq-ok, ok-injective, ◌≡◌, inl, inr, refl, sym, ap, ◌∙◌, subst, Text, contains,
  split, split-prefix_all, prefix_all, prefix_all-split, contains-split, skip_first, split-same,
}
use shittim.SchemaTool.JsonPointer.{
  JsonPointer, SchemaToolError, pointer_syntax, encode_segment, decode_segment, decoded_segments,
  parse, from_decoded_segments,
}
use shittim.SchemaTool.JsonPointer.Escapes.{
  contains-encode_segment, decode_segment-encode_segment, encode_segment-decode_segment,
}

-- The step of both loops over the segments of a pointer.
abbrev decode_at : JsonPointer → Text → Result SchemaToolError Text
decode_at pointer segment = map_err (λ detail. pointer_syntax pointer) (decode_segment segment)

decode_at-ok :
    (pointer : JsonPointer) (segment out : Text)
    → decode_at pointer segment ≡ ok out
    → decode_segment segment ≡ ok out
decode_at-ok pointer segment out h = go (decode_segment segment) refl h
  where
    go :
        (result : Result _ Text)
        → decode_segment segment ≡ result
        → map_err (λ detail. pointer_syntax pointer) result ≡ ok out
        → decode_segment segment ≡ ok out
    go (err failure) e k = cc
    go (ok other) e k = e ∙ ap ok (ok-injective k)

try_map-encode_segment :
    (pointer : JsonPointer) (segments : List Text)
    → try_map (decode_at pointer) (map encode_segment segments) ≡ ok segments
unfolding try_map
try_map-encode_segment pointer [] = refl
try_map-encode_segment pointer (segment ∷ segments) =
    rw (decode_segment-encode_segment segment, try_map-encode_segment pointer segments)

encode_segment-try_map :
    (pointer : JsonPointer) (parts segments : List Text)
    → All (λ part. contains part b'/' ≡ false) parts
    → try_map (decode_at pointer) parts ≡ ok segments
    → map encode_segment segments ≡ parts
unfolding try_map
encode_segment-try_map pointer [] segments all h = ap (map encode_segment) (sym (ok-injective h))
encode_segment-try_map pointer (part ∷ parts) segments all h =
    let (out, e, h1) = and_then-eq-ok (decode_at pointer part) _ h in
    let (outs, es, h2) = and_then-eq-ok (try_map (decode_at pointer) parts) _ h1 in
    ap (map encode_segment) (sym (ok-injective h2)) ∙ λ i.
    encode_segment-decode_segment part out all.0 (decode_at-ok pointer part out e) i
    ∷ encode_segment-try_map pointer parts outs all.1 es i

from_decoded_segments-prefix_all :
    (segments : List Text)
    → from_decoded_segments segments ≡ prefix_all b'/' (map encode_segment segments)
unfolding from_decoded_segments prefix_all
from_decoded_segments-prefix_all [] = refl
from_decoded_segments-prefix_all (segment ∷ segments) =
    ap (λ rest. b'/' ∷ (encode_segment segment ++ rest)) (from_decoded_segments-prefix_all segments)

contains-map :
    (segments : List Text) → All (λ part. contains part b'/' ≡ false) (map encode_segment segments)
contains-map [] = tt
contains-map (segment ∷ segments) = (contains-encode_segment segment, contains-map segments)

-- The parts of a pointer that is not the root.
split-from_decoded_segments :
    (segment : Text) (segments : List Text)
    → split (from_decoded_segments (segment ∷ segments)) b'/'
      ≡ [] ∷ map encode_segment (segment ∷ segments)
split-from_decoded_segments segment segments =
    ap (λ pointer. split pointer b'/') (from_decoded_segments-prefix_all (segment ∷ segments))
    ∙ split-prefix_all b'/' [] (map encode_segment (segment ∷ segments)) refl
        (contains-map (segment ∷ segments))

decoded_segments-from_decoded_segments :
    (segments : List Text) → decoded_segments (from_decoded_segments segments) ≡ ok segments
unfolding decoded_segments from_decoded_segments
decoded_segments-from_decoded_segments [] = refl
decoded_segments-from_decoded_segments (segment ∷ segments) = rw (
  split-from_decoded_segments segment segments,
  try_map-encode_segment (from_decoded_segments (segment ∷ segments)) (segment ∷ segments),
)

parse-from_decoded_segments :
    (segments : List Text)
    → parse (from_decoded_segments segments) ≡ ok (from_decoded_segments segments)
unfolding parse from_decoded_segments
parse-from_decoded_segments [] = refl
parse-from_decoded_segments (segment ∷ segments) = rw (
  split-from_decoded_segments segment segments,
  try_map-encode_segment (from_decoded_segments (segment ∷ segments)) (segment ∷ segments),
)

-- What a parse of a text that begins with `/` comes to.
parse-slash :
    (s pointer : Text)
    → parse (b'/' ∷ s) ≡ ok pointer
    → (segments : List Text) × (try_map (decode_at (b'/' ∷ s)) (split s b'/') ≡ ok segments)
      × (pointer ≡ b'/' ∷ s)
unfolding parse
parse-slash s pointer h =
    let (segments, e, h1) =
      and_then-eq-ok (try_map (decode_at (b'/' ∷ s)) (skip_first (split (b'/' ∷ s) b'/'))) _ h in
    (
      segments,
      ap (λ parts. try_map (decode_at (b'/' ∷ s)) (skip_first parts)) (sym (split-same b'/' s)) ∙ e,
      sym (ok-injective h1),
    )

parse-starts_with : (c : ℕ) (s pointer : Text) → parse (c ∷ s) ≡ ok pointer → c ≡ b'/'
unfolding parse
parse-starts_with c s pointer h = elim (Bool-cases (c == b'/')) [
  | inl same ↦ (==_iff c b'/').0 same
  | inr other ↦ cc (rw other at h)
]

parse-segments :
    (raw pointer : Text)
    → parse raw ≡ ok pointer
    → (pointer ≡ raw)
      × (segments : List Text) × (decoded_segments raw ≡ ok segments)
      × (from_decoded_segments segments ≡ raw)
unfolding parse decoded_segments from_decoded_segments
parse-segments [] pointer h = (sym (ok-injective h), [], refl, refl)
parse-segments (c ∷ s) pointer h =
    let slash = parse-starts_with c s pointer h in
    let h' = subst (λ d. parse (d ∷ s) ≡ ok pointer) slash h in
    let (segments, e, same) = parse-slash s pointer h' in
    subst
      (λ d.
        (pointer ≡ d ∷ s)
        × (segments : List Text) × (decoded_segments (d ∷ s) ≡ ok segments)
        × (from_decoded_segments segments ≡ d ∷ s))
      (sym slash)
      (
        same,
        segments,
        ap (λ parts. try_map (decode_at (b'/' ∷ s)) (skip_first parts)) (split-same b'/' s) ∙ e,
        from_decoded_segments-prefix_all segments
            ∙ (ap (prefix_all b'/') (
                  encode_segment-try_map (b'/' ∷ s) (split s b'/') segments (contains-split b'/' s)
                    e)
                ∙ prefix_all-split b'/' s),
      )

-- Pointers and lists of segments are the same thing. A text that parses is the pointer itself, and
-- its decoded segments make up that same text; and any segments make up a pointer that parses and
-- decodes to them.
pub parse-decoded_segments :
    (raw pointer : Text) (parts : List Text)
    → parse raw ≡ ok pointer
    → ((pointer ≡ raw)
        × (segments : List Text) × (decoded_segments pointer ≡ ok segments)
        × (from_decoded_segments segments ≡ pointer))
      × (parse (from_decoded_segments parts) ≡ ok (from_decoded_segments parts))
      × (decoded_segments (from_decoded_segments parts) ≡ ok parts)
parse-decoded_segments raw pointer parts h =
    let (same, segments, decoded, encoded) = parse-segments raw pointer h in
    (
      (same, segments, ap decoded_segments same ∙ decoded, encoded ∙ sym same),
      parse-from_decoded_segments parts,
      decoded_segments-from_decoded_segments parts,
    )
