-- ===== src/SchemaTool/JsonPointer/Escapes.antt =====
-- Segments and their escaped form (rust/crates/schema-tool/src/json_pointer.rs, `encode_segment` and
-- `decode_segment`).
use shittim.Base.{
  ℕ, false, Bool-cases, ==_iff, ◌==◌, [], ◌∷◌, ◌++◌, Result, ok, err, ok-injective, ◌≡◌, inl, inr,
  refl, sym, ap, ◌∙◌, arith, Text, codes, contains, if◌then◌else◌,
}
use shittim.SchemaTool.JsonPointer.{EscapeError, encode_segment, push, unescape, decode_segment}

-- The escaped form of one character.
abbrev escape_char : ℕ → Text
escape_char c = if c == b'~' then codes "~0" else if c == b'/' then codes "~1" else c ∷ []

pub encode_segment-cons :
    (c : ℕ) (s : Text) → encode_segment (c ∷ s) ≡ escape_char c ++ encode_segment s
unfolding encode_segment
encode_segment-cons c s = ground arith

encode_segment-escaped :
    (c : ℕ) (s prefix : Text)
    → escape_char c ≡ prefix
    → encode_segment (c ∷ s) ≡ prefix ++ encode_segment s
encode_segment-escaped c s prefix h =
    encode_segment-cons c s ∙ ap (λ escaped. escaped ++ encode_segment s) h

pub contains-encode_segment : (s : Text) → contains (encode_segment s) b'/' ≡ false
unfolding encode_segment
contains-encode_segment [] = refl
contains-encode_segment (c ∷ s) = ground (arith, contains-encode_segment s)

decode_segment-plain :
    (c : ℕ) (s : Text) → (c == b'~') ≡ false → decode_segment (c ∷ s) ≡ push c (decode_segment s)
unfolding decode_segment
decode_segment-plain c [] h = rw h
decode_segment-plain c (d ∷ s) h = rw h

pub decode_segment-encode_segment : (s : Text) → decode_segment (encode_segment s) ≡ ok s
unfolding decode_segment encode_segment
decode_segment-encode_segment [] = refl
decode_segment-encode_segment (c ∷ s) = elim (Bool-cases (c == b'~')) [
  | inl tilde ↦
      ap decode_segment (encode_segment-escaped c s (codes "~0") (rw tilde))
      ∙ rw (decode_segment-encode_segment s, (==_iff c b'~').0 tilde)
  | inr no_tilde ↦ elim (Bool-cases (c == b'/')) [
    | inl slash ↦
        ap decode_segment (encode_segment-escaped c s (codes "~1") (rw (no_tilde, slash)))
        ∙ rw (decode_segment-encode_segment s, (==_iff c b'/').0 slash)
    | inr plain ↦
        ap decode_segment (encode_segment-escaped c s (c ∷ []) (rw (no_tilde, plain)))
        ∙ (decode_segment-plain c (encode_segment s) no_tilde
            ∙ ap (push c) (decode_segment-encode_segment s))
  ]
]

push-eq-ok :
    (c : ℕ) (rest : Result EscapeError Text) (out : Text)
    → push c rest ≡ ok out
    → (tail : Text) × (rest ≡ ok tail) × (out ≡ c ∷ tail)
push-eq-ok c (err failure) out h = cc
push-eq-ok c (ok tail) out h = (tail, refl, cc)

-- What a `~` and the next character decode to, they are the escape of.
unescape-eq-ok :
    (d : ℕ) (rest : Result EscapeError Text) (out : Text)
    → unescape d rest ≡ ok out
    → (c : ℕ) × (tail : Text) × (rest ≡ ok tail)
      × (out ≡ c ∷ tail)
      × (escape_char c ≡ b'~' ∷ d ∷ [])
unescape-eq-ok d rest out h = elim (Bool-cases (d == b'0')) [
  | inl zero_char ↦
      let (tail, e, out_is) = push-eq-ok b'~' rest out (rw zero_char at h) in
      (b'~', tail, e, out_is, rw ((==_iff d b'0').0 zero_char))
  | inr no_zero ↦ elim (Bool-cases (d == b'1')) [
    | inl one_char ↦
        let (tail, e, out_is) = push-eq-ok b'/' rest out (rw (no_zero, one_char) at h) in
        (b'/', tail, e, out_is, rw ((==_iff d b'1').0 one_char))
    | inr other ↦ cc (rw (no_zero, other) at h)
  ]
]

encode_segment-plain :
    (c : ℕ) (s : Text)
    → (c == b'~') ≡ false
    → (c == b'/') ≡ false
    → encode_segment (c ∷ s) ≡ c ∷ encode_segment s
encode_segment-plain c s h k = encode_segment-escaped c s (c ∷ []) (rw (h, k))

pub encode_segment-decode_segment :
    (s out : Text) → contains s b'/' ≡ false → decode_segment s ≡ ok out → encode_segment out ≡ s
unfolding decode_segment encode_segment
encode_segment-decode_segment [] out h e = rw (sym (ok-injective e))
encode_segment-decode_segment (c ∷ []) out h e = elim (Bool-cases (c == b'~')) [
  | inl tilde ↦ cc (rw tilde at e)
  | inr plain ↦
      ap encode_segment (sym (ok-injective (rw plain at e)))
      ∙ encode_segment-plain c [] plain (ground arith)
]
encode_segment-decode_segment (c ∷ d ∷ s) out h e = elim (Bool-cases (c == b'~')) [
  | inl tilde ↦
      let (b, tail, rest, out_is, escaped) =
        unescape-eq-ok d (decode_segment s) out (rw tilde at e) in
      ap encode_segment out_is
      ∙ (encode_segment-escaped b tail (b'~' ∷ d ∷ []) escaped
          ∙ rw (encode_segment-decode_segment s tail (ground arith) rest, (==_iff c b'~').0 tilde))
  | inr plain ↦
      let (tail, rest, out_is) = push-eq-ok c (decode_segment (d ∷ s)) out (rw plain at e) in
      ap encode_segment out_is
      ∙ (encode_segment-plain c tail plain (ground arith)
          ∙ ap (◌∷◌ c) (encode_segment-decode_segment (d ∷ s) tail (ground arith) rest))
]
