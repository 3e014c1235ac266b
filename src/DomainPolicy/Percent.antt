-- ===== src/DomainPolicy/Percent.antt =====
-- Percent encoding of URIs (rust/crates/domain-policy/src/uri.rs: `validate_percent_encoding`,
-- `uppercase_percent_encoding`). Both loops run over UTF-8 bytes.
use shittim.Base.{
  ℕ, ◌+◌, ◌-◌, Bool, true, false, ◌&&◌, ◌||◌, List, [], ◌∷◌, ◌≡◌, ◌↔◌, refl, arith, leb, ◌==◌, inl,
  inr, Bool-cases, ap, ◌∙◌, &&-eq_true, ==_iff, if◌then◌else◌, Result, ok, err, reject_if, Text,
  utf8,
}
use shittim.DomainPolicy.Error.{PolicyErrorCode, invalid_uri_pattern}

-- `u8::is_ascii_hexdigit`
abbrev pub is_ascii_hexdigit : ℕ → Bool
is_ascii_hexdigit c =
    (leb b'0' c && leb c b'9') || (leb b'A' c && leb c b'F') || (leb b'a' c && leb c b'f')

-- `to_ascii_uppercase` and `to_ascii_lowercase` of a character
abbrev pub to_ascii_uppercase : ℕ → ℕ
to_ascii_uppercase c = if leb b'a' c && leb c b'z' then c - 32 else c

abbrev pub to_ascii_lowercase : ℕ → ℕ
to_ascii_lowercase c = if leb b'A' c && leb c b'Z' then c + 32 else c

-- The loop of `validate_percent_encoding`: a complete escape is skipped as a whole.
unfoldable pub validate_bytes : List ℕ → Result PolicyErrorCode (Unit {0})
validate_bytes [] = ok tt
validate_bytes (b ∷ []) = reject_if (b == b'%') invalid_uri_pattern
validate_bytes (b ∷ c ∷ []) =
    let rest = validate_bytes (c ∷ []) in if b == b'%' then err invalid_uri_pattern else rest
validate_bytes (b ∷ c ∷ d ∷ bytes) =
    let skip = validate_bytes bytes in
    let rest = validate_bytes (c ∷ d ∷ bytes) in
    let escape =
      if is_ascii_hexdigit c && is_ascii_hexdigit d then skip else err invalid_uri_pattern in
    if b == b'%' then escape else rest

unfoldable pub validate_percent_encoding : Text → Result PolicyErrorCode (Unit {0})
unfolding validate_bytes utf8
validate_percent_encoding input = validate_bytes (utf8 input)

-- The loop of `uppercase_percent_encoding`; each byte becomes the character with its number.
unfoldable pub uppercase_bytes : List ℕ → Text
uppercase_bytes [] = []
uppercase_bytes (b ∷ []) = b ∷ []
uppercase_bytes (b ∷ c ∷ []) = b ∷ uppercase_bytes (c ∷ [])
uppercase_bytes (b ∷ c ∷ d ∷ bytes) =
    let escape = b ∷ to_ascii_uppercase c ∷ to_ascii_uppercase d ∷ uppercase_bytes bytes in
    let rest = b ∷ uppercase_bytes (c ∷ d ∷ bytes) in if b == b'%' then escape else rest

unfoldable pub uppercase_percent_encoding : Text → Text
unfolding uppercase_bytes utf8
uppercase_percent_encoding input = uppercase_bytes (utf8 input)

-- Two hexadecimal digits come first.
abbrev StartsWithHex : List ℕ → Type 0
StartsWithHex (c ∷ d ∷ bytes) = (is_ascii_hexdigit c ≡ true) × (is_ascii_hexdigit d ≡ true)
StartsWithHex _ = ⊥

-- Behind every `%`, wherever it stands, two hexadecimal digits come first.
abbrev pub HasCompleteEscapes : List ℕ → Type 0
HasCompleteEscapes [] = Unit
HasCompleteEscapes (b ∷ bytes) = (b ≡ b'%' → StartsWithHex bytes) × HasCompleteEscapes bytes

validate_bytes_iff : (bytes : List ℕ) → (validate_bytes bytes ≡ ok tt) ↔ HasCompleteEscapes bytes
unfolding validate_bytes
validate_bytes_iff [] = (λ h. tt, λ h. refl)
validate_bytes_iff (b ∷ []) = (λ h. (λ e. ground arith, tt), λ h. ground (arith, h.0))
validate_bytes_iff (b ∷ c ∷ []) =
    (λ h. (λ e. ground arith, (λ e. ground arith, tt)), λ h. ground (arith, h.0, h.1.0))
validate_bytes_iff (b ∷ c ∷ d ∷ bytes) =
    let (skip_sound, skip_complete) = validate_bytes_iff bytes in
    let (step_sound, step_complete) = validate_bytes_iff (c ∷ d ∷ bytes) in
    elim (Bool-cases (b == b'%')) [
      | inl percent ↦ elim (Bool-cases (is_ascii_hexdigit c && is_ascii_hexdigit d)) [
        | inl hex ↦
            rw (percent, hex)
              (
                λ h. (
                  λ e. (&&-eq_true (is_ascii_hexdigit c) (is_ascii_hexdigit d)).0 hex,
                  (λ e. absurd (ground arith), (λ e. absurd (ground arith), skip_sound h)),
                ),
                λ h. skip_complete (h.1.1.1),
              )
        | inr other ↦
            rw (percent, other)
              (
                λ h. cc,
                λ h. cc (rw ((&&-eq_true _ _).1 (h.0 ((==_iff b b'%').0 percent))) at other),
              )
      ]
      | inr literal ↦
          rw literal (λ h. (λ e. absurd (ground arith), step_sound h), λ h. step_complete (h.1))
    ]

-- A text passes exactly when in its UTF-8 bytes every `%` is followed by two hexadecimal digits,
-- though the loop skips the digits of each escape.
pub validate_percent_encoding_iff :
    (input : Text) → (validate_percent_encoding input ≡ ok tt) ↔ HasCompleteEscapes (utf8 input)
unfolding validate_percent_encoding
validate_percent_encoding_iff input = validate_bytes_iff (utf8 input)

uppercase_bytes-literal :
    (b : ℕ) (bytes : List ℕ)
    → (b == b'%') ≡ false
    → uppercase_bytes (b ∷ bytes) ≡ b ∷ uppercase_bytes bytes
unfolding uppercase_bytes
uppercase_bytes-literal b [] h = refl
uppercase_bytes-literal b (c ∷ []) h = refl
uppercase_bytes-literal b (c ∷ d ∷ bytes) h = rw h

to_ascii_uppercase_idem : (c : ℕ) → to_ascii_uppercase (to_ascii_uppercase c) ≡ to_ascii_uppercase c
to_ascii_uppercase_idem c = ground arith

-- What the loop made of a text of ASCII characters it leaves as it is.
pub uppercase_bytes-uppercase_bytes :
    (bytes : List ℕ) → uppercase_bytes (uppercase_bytes bytes) ≡ uppercase_bytes bytes
unfolding uppercase_bytes
uppercase_bytes-uppercase_bytes [] = refl
uppercase_bytes-uppercase_bytes (b ∷ []) = refl
uppercase_bytes-uppercase_bytes (b ∷ c ∷ []) = refl
uppercase_bytes-uppercase_bytes (b ∷ c ∷ d ∷ bytes) = elim (Bool-cases (b == b'%')) [
  | inl percent ↦ rw percent (
      rw percent (
        ground (
          arith,
          to_ascii_uppercase_idem c,
          to_ascii_uppercase_idem d,
          uppercase_bytes-uppercase_bytes bytes,
        )))
  | inr literal ↦ rw literal (
      uppercase_bytes-literal b (uppercase_bytes (c ∷ d ∷ bytes)) literal
      ∙ ap (λ (t : Text). b ∷ t) (uppercase_bytes-uppercase_bytes (c ∷ d ∷ bytes)))
]
