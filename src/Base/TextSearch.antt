-- ===== src/Base/TextSearch.antt =====
-- The searching parts of `str` that the program uses, and UTF-8.
use Prim.Native.Nat.{ℕ, zero, suc, ◌+◌, ◌*◌, ◌-◌, ◌/◌, ◌%◌}
use mathlib.Core.Bool.{Bool, true, false, ◌||◌, ◌&&◌}
use mathlib.Core.Option.{Option, none, some}
use mathlib.Core.List.{List, [], ◌∷◌, ◌++◌}
use shittim.Base.Tests.{ltb, leb, ◌==◌, if◌then◌else◌}
use shittim.Base.Strings.{Text}

-- `s.contains(c)` for a character
abbrev pub contains : Text → ℕ → Bool
contains [] c = false
contains (d ∷ s) c = d == c || contains s c

-- `s.strip_prefix(p)`
unfoldable pub strip_prefix : Text → Text → Option Text
strip_prefix s [] = some s
strip_prefix [] (c ∷ p) = none
strip_prefix (d ∷ s) (c ∷ p) = let rest = strip_prefix s p in if d == c then rest else none

abbrev pub is_present {ℓ} : {A : Type ℓ} → Option A → Bool
is_present none = false
is_present (some a) = true

unfoldable pub starts_with : Text → Text → Bool
unfolding strip_prefix
starts_with s p = is_present (strip_prefix s p)

abbrev pub put_first : ℕ → Option (Text × Text) → Option (Text × Text)
put_first c none = none
put_first c (some (head, tail)) = some (c ∷ head, tail)

-- `s.split_once(c)` for a character
unfoldable pub split_once : Text → ℕ → Option (Text × Text)
split_once [] c = none
split_once (d ∷ s) c =
    let rest = split_once s c in if d == c then some ([], s) else put_first d rest

-- `s.find(p)`, as the text before the first occurrence and the text behind it
unfoldable pub split_at : Text → Text → Option (Text × Text)
unfolding strip_prefix
split_at [] p = elim (strip_prefix [] p) [ some rest ↦ some ([], rest) | none ↦ none ]
split_at (c ∷ s) p =
    let later = put_first c (split_at s p) in
    elim (strip_prefix (c ∷ s) p) [ some rest ↦ some ([], rest) | none ↦ later ]

abbrev pub extend_first : ℕ → List Text → List Text
extend_first c [] = (c ∷ []) ∷ []
extend_first c (part ∷ parts) = (c ∷ part) ∷ parts

-- `s.split(c)` for a character
unfoldable pub split : Text → ℕ → List Text
split [] c = [] ∷ []
split (d ∷ s) c = let rest = split s c in if d == c then [] ∷ rest else extend_first d rest

-- `s.replace(c, r)` for a character
unfoldable pub replace_char : Text → ℕ → Text → Text
replace_char [] c replacement = []
replace_char (d ∷ s) c replacement =
    let rest = replace_char s c replacement in if d == c then replacement ++ rest else d ∷ rest

-- `parts.join(sep)`
unfoldable pub join : List Text → Text → Text
join [] sep = []
join (part ∷ []) sep = part
join (part ∷ more ∷ parts) sep = part ++ (sep ++ join (more ∷ parts) sep)

-- UTF-8.
abbrev pub utf8_char : ℕ → List ℕ
utf8_char c =
    if ltb c 0x80
    then c ∷ []
    else if ltb c 0x800
    then (0xc0 + c / 64) ∷ (0x80 + c % 64) ∷ []
    else if ltb c 0x10000
    then (0xe0 + c / 4096) ∷ (0x80 + c / 64 % 64) ∷ (0x80 + c % 64) ∷ []
    else (0xf0 + c / 262144) ∷ (0x80 + c / 4096 % 64) ∷ (0x80 + c / 64 % 64) ∷ (0x80 + c % 64) ∷ []

unfoldable pub utf8 : Text → List ℕ
utf8 [] = []
utf8 (c ∷ s) = utf8_char c ++ utf8 s

-- The decimal digits of a number below 10 ^ fuel.
unfoldable pub decimal_digits : ℕ → ℕ → Text → Text
decimal_digits zero n digits = digits
decimal_digits (suc fuel) n digits =
    let digits' = (b'0' + n % 10) ∷ digits in
    let more = decimal_digits fuel (n / 10) digits' in if ltb n 10 then digits' else more

-- `iter().skip(1)`
abbrev pub skip_first {ℓ} : {A : Type ℓ} → List A → List A
skip_first [] = []
skip_first (x ∷ xs) = xs

-- `to_string` of a usize
unfoldable pub decimal_usize : ℕ → Text
unfolding decimal_digits
decimal_usize n = decimal_digits 20 n []

-- `to_string` of a u16
unfoldable pub decimal_u16 : ℕ → Text
unfolding decimal_digits
decimal_u16 n = decimal_digits 5 n []

-- `u8::is_ascii_digit`
abbrev pub is_ascii_digit : ℕ → Bool
is_ascii_digit c = leb b'0' c && leb c b'9'

abbrev pub all_digits : Text → Bool
all_digits [] = true
all_digits (c ∷ token) = is_ascii_digit c && all_digits token

-- The number that the digits read after `n` make.
unfoldable pub decimal_value : ℕ → Text → ℕ
decimal_value n [] = n
decimal_value n (c ∷ token) = decimal_value (n * 10 + (c - b'0')) token
