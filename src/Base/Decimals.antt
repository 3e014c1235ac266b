-- ===== src/Base/Decimals.antt =====
-- The digits of a number, printed and read.
use Prim.Native.Nat.{ℕ, zero, suc, ◌+◌, ◌*◌, ◌/◌, ◌%◌, ◌^◌, ◌<◌}
use mathlib.Core.Path.{◌≡◌, refl, ap, ◌∙◌}
use mathlib.Core.Logic.{inl, inr}
use mathlib.Core.Bool.{true, false}
use mathlib.Core.List.{[], ◌∷◌}
use native.Mathlib.Omega.{arith}
use shittim.Base.Tests.{ltb, Bool-cases}
use shittim.Base.Lists.{is_empty}
use shittim.Base.Strings.{Text}
use shittim.Base.TextSearch.{
  decimal_digits, decimal_usize, is_ascii_digit, all_digits, decimal_value,
}

digit-is_ascii_digit : (n : ℕ) → is_ascii_digit (b'0' + n % 10) ≡ true
digit-is_ascii_digit n = ground arith

all_digits-decimal_digits :
    (fuel n : ℕ) (digits : Text)
    → all_digits digits ≡ true
    → all_digits (decimal_digits fuel n digits) ≡ true
unfolding decimal_digits
all_digits-decimal_digits zero n digits h = h
all_digits-decimal_digits (suc fuel) n digits h =
    let more : all_digits ((b'0' + n % 10) ∷ digits) ≡ true =
      ground (arith, digit-is_ascii_digit n) in
    elim (Bool-cases (ltb n 10)) [
      | inl small ↦ rw small more
      | inr large ↦
          rw large (all_digits-decimal_digits fuel (n / 10) ((b'0' + n % 10) ∷ digits) more)
    ]

is_empty-decimal_digits :
    (fuel n c : ℕ) (digits : Text) → is_empty (decimal_digits fuel n (c ∷ digits)) ≡ false
unfolding decimal_digits
is_empty-decimal_digits zero n c digits = refl
is_empty-decimal_digits (suc fuel) n c digits =
    ground (arith, is_empty-decimal_digits fuel (n / 10) (b'0' + n % 10) (c ∷ digits))

decimal_value-digit :
    (m n d : ℕ) (digits : Text)
    → m * 10 + d ≡ n
    → decimal_value m ((b'0' + d) ∷ digits) ≡ decimal_value n digits
unfolding decimal_value
decimal_value-digit m n d digits h = ap (λ (k : ℕ). decimal_value k digits) (omega (arith, h))

decimal_value-small :
    (fuel n : ℕ) (digits : Text)
    → ltb n 10 ≡ true
    → decimal_value 0 (decimal_digits (suc fuel) n digits) ≡ decimal_value n digits
unfolding decimal_digits
decimal_value-small fuel n digits small =
    rw small (decimal_value-digit 0 n (n % 10) digits (ground arith))

decimal_value-large :
    (fuel n : ℕ) (digits : Text)
    → ltb n 10 ≡ false
    → decimal_value 0 (decimal_digits fuel (n / 10) ((b'0' + n % 10) ∷ digits))
      ≡ decimal_value (n / 10) ((b'0' + n % 10) ∷ digits)
    → decimal_value 0 (decimal_digits (suc fuel) n digits) ≡ decimal_value n digits
unfolding decimal_digits
decimal_value-large fuel n digits large deeper =
    rw large (deeper ∙ decimal_value-digit (n / 10) n (n % 10) digits (omega arith))

decimal_value-none : (n : ℕ) → decimal_value n [] ≡ n
unfolding decimal_value
decimal_value-none n = refl

-- Enough digits read back as the number that they are printed from.
decimal_value-decimal_digits :
    (fuel n : ℕ) (digits : Text)
    → n < 10 ^ suc fuel
    → decimal_value 0 (decimal_digits (suc fuel) n digits) ≡ decimal_value n digits
decimal_value-decimal_digits zero n digits h = decimal_value-small 0 n digits (ground arith)
decimal_value-decimal_digits (suc fuel) n digits h = elim (Bool-cases (ltb n 10)) [
  | inl small ↦ decimal_value-small (suc fuel) n digits small
  | inr large ↦
      decimal_value-large (suc fuel) n digits large
        (decimal_value-decimal_digits fuel (n / 10) ((b'0' + n % 10) ∷ digits) (omega arith))
]

is_empty-some_digits : (fuel n : ℕ) → is_empty (decimal_digits (suc fuel) n []) ≡ false
unfolding decimal_digits
is_empty-some_digits fuel n =
    ground (arith, is_empty-decimal_digits fuel (n / 10) (b'0' + n % 10) [])

decimal_usize-digits : (n : ℕ) → decimal_usize n ≡ decimal_digits 20 n []
unfolding decimal_usize
decimal_usize-digits n = refl

-- What the text of a usize is: digits, at least one, that read as the number.
pub decimal_usize_lem :
    (n : ℕ)
    → n < 10 ^ 20
    → (is_empty (decimal_usize n) ≡ false)
      × (all_digits (decimal_usize n) ≡ true)
      × (decimal_value 0 (decimal_usize n) ≡ n)
decimal_usize_lem n h = rw (decimal_usize-digits n) (
  is_empty-some_digits 19 n,
  all_digits-decimal_digits 20 n [] refl,
  decimal_value-decimal_digits 19 n [] h ∙ decimal_value-none n,
)
