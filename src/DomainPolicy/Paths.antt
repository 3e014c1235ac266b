-- ===== src/DomainPolicy/Paths.antt =====
-- Dot segments and file paths (rust/crates/domain-policy/src/uri.rs: `remove_dot_segments`,
-- `normalize_file_uri`).
pub mod Dots
pub mod Cancels
use shittim.Base.{
  ℕ, Bool, false, not, ◌&&◌, ◌||◌, List, [], ◌∷◌, ◌++◌, ◌≡◌, ◌≢◌, refl, arith, leb, ◌==◌,
  if◌then◌else◌, All, Result, ok, ◌>>◌, reject_if, is_empty, Text, codes, text_eq, text_eq_iff, inl,
  inr, Bool-cases, ◌∙◌,
}
use mathlib.Core.List.{append-nil, append_assoc}
use shittim.DomainPolicy.Error.{PolicyErrorCode, invalid_uri_pattern}
use shittim.DomainPolicy.Percent.{to_ascii_uppercase}

-- `Vec::pop`
unfoldable pub pop {ℓ} : {A : Type ℓ} → List A → List A
pop [] = []
pop (x ∷ []) = []
pop (x ∷ y ∷ xs) = x ∷ pop (y ∷ xs)

-- The loop over the segments; `result` is the vector that it fills.
unfoldable pub remove_dots_into : List Text → List Text → List Text
unfolding pop text_eq
remove_dots_into result [] = result
remove_dots_into result (segment ∷ segments) =
    remove_dots_into
      (if text_eq segment (codes ".")
        then result
        else if text_eq segment (codes "..")
        then pop result
        else result ++ (segment ∷ []))
      segments

unfoldable pub remove_dot_segments : List Text → Result PolicyErrorCode (List Text)
unfolding remove_dots_into
remove_dot_segments segments = ok (remove_dots_into [] segments)

-- `u8::is_ascii_alphabetic`
abbrev pub is_ascii_alphabetic : ℕ → Bool
is_ascii_alphabetic c = (leb b'A' c && leb c b'Z') || (leb b'a' c && leb c b'z')

-- The first segment with a drive letter in upper case; two bytes of which the second is `:` are two
-- characters.
unfoldable pub uppercase_drive : List Text → List Text
uppercase_drive ((c ∷ d ∷ []) ∷ segments) =
    if is_ascii_alphabetic c && d == b':'
    then (to_ascii_uppercase c ∷ d ∷ []) ∷ segments
    else (c ∷ d ∷ []) ∷ segments
uppercase_drive segments = segments

unfoldable pub normalize_file_uri : Text → List Text → Result PolicyErrorCode (List Text)
unfolding uppercase_drive text_eq
normalize_file_uri authority segments = do
  reject_if (not (is_empty authority) && not (text_eq authority (codes "localhost")))
      invalid_uri_pattern
  ok (uppercase_drive segments)
