-- ===== src/Base/Int.antt =====
-- Signed machine integers: i64 and i32 values as integers over the native numbers, their order, and
-- the wrap-around of i32.
use Prim.Native.Nat.{ℕ, zero, suc, ◌+◌, ◌-◌, ◌*◌, ◌%◌, compare, Ordering}
use mathlib.Core.Path.{◌≡◌}
use mathlib.Core.Logic.{◌↔◌, ◌≢◌}
use mathlib.Core.Bool.{Bool, true, false}
use mathlib.Core.Option.{Option, none, some}
use native.Mathlib.Omega.{arith}
use shittim.Base.Tests.{ltb, if◌then◌else◌}
use shittim.Base.TextOrder.{reverse_order}

-- `negsuc n` is -(n + 1).
pub data ℤ : Type 0 where
  negsuc : ℕ → ℤ
  pos : ℕ → ℤ

unfoldable pub int_cmp : ℤ → ℤ → Ordering
int_cmp (negsuc m) (negsuc n) = compare n m
int_cmp (negsuc m) (pos n) = Ordering.lt
int_cmp (pos m) (negsuc n) = Ordering.gt
int_cmp (pos m) (pos n) = compare m n

pub int_cmp-eq_iff : (x y : ℤ) → (int_cmp x y ≡ Ordering.eq) ↔ (x ≡ y)
unfolding int_cmp
int_cmp-eq_iff x y = ground arith

pub int_cmp-reverse : (x y : ℤ) → int_cmp y x ≡ reverse_order (int_cmp x y)
unfolding int_cmp
int_cmp-reverse x y = ground arith

pub int_cmp-lt_trans :
    (x y z : ℤ) → int_cmp x y ≡ Ordering.lt → int_cmp y z ≡ Ordering.lt → int_cmp x z ≡ Ordering.lt
unfolding int_cmp
int_cmp-lt_trans x y z h k = ground arith

-- `x < n` and `x <= n` for a number n
abbrev pub is_below : ℤ → ℕ → Bool
is_below (negsuc m) n = true
is_below (pos m) n = ltb m n

abbrev difference : ℕ → ℕ → ℤ
difference m n = if ltb m n then negsuc (n - m - 1) else pos (m - n)

unfoldable pub plus : ℤ → ℤ → ℤ
plus (negsuc m) (negsuc n) = negsuc (m + n + 1)
plus (negsuc m) (pos n) = difference n (m + 1)
plus (pos m) (negsuc n) = difference m (n + 1)
plus (pos m) (pos n) = pos (m + n)

unfoldable pub negate : ℤ → ℤ
negate (negsuc m) = pos (m + 1)
negate (pos zero) = pos 0
negate (pos (suc m)) = negsuc m

-- The i32 value with the same low 32 bits.
unfoldable pub wrap_i32 : ℤ → ℤ
wrap_i32 (negsuc m) =
    let low = m % 4294967296 in if ltb low 2147483648 then negsuc low else pos (4294967295 - low)
wrap_i32 (pos m) =
    let low = m % 4294967296 in if ltb low 2147483648 then pos low else negsuc (4294967295 - low)

-- `a + b` and `a - b` on i32, and `n as i32`
unfoldable pub add_i32 : ℤ → ℤ → ℤ
unfolding wrap_i32 plus
add_i32 x y = wrap_i32 (plus x y)

unfoldable pub sub_i32 : ℤ → ℤ → ℤ
unfolding wrap_i32 plus negate
sub_i32 x y = wrap_i32 (plus x (negate y))

unfoldable pub as_i32 : ℕ → ℤ
unfolding wrap_i32
as_i32 n = wrap_i32 (pos n)

-- `a < b`, `a == b` and `a * b`
unfoldable pub int_ltb : ℤ → ℤ → Bool
unfolding int_cmp
int_ltb x y = elim (int_cmp x y) [ Ordering.lt ↦ true | _ ↦ false ]

unfoldable pub int_eq : ℤ → ℤ → Bool
unfolding int_cmp
int_eq x y = elim (int_cmp x y) [ Ordering.eq ↦ true | _ ↦ false ]

unfoldable pub times : ℤ → ℤ → ℤ
unfolding negate
times (negsuc m) (negsuc n) = pos ((m + 1) * (n + 1))
times (negsuc m) (pos n) = negate (pos ((m + 1) * n))
times (pos m) (negsuc n) = negate (pos (m * (n + 1)))
times (pos m) (pos n) = pos (m * n)

-- What the checked operations of i64 make of an exact result.
unfoldable pub checked_i64 : ℤ → Option ℤ
checked_i64 (negsuc m) = if ltb m 9223372036854775808 then some (negsuc m) else none
checked_i64 (pos m) = if ltb m 9223372036854775808 then some (pos m) else none

pub checked_i64-exact : (x y : ℤ) → checked_i64 x ≡ some y → x ≡ y
unfolding checked_i64
checked_i64-exact (negsuc m) y h = ground arith
checked_i64-exact (pos m) y h = ground arith

pub plus_mono :
    (x y z : ℤ) → int_cmp x y ≢ Ordering.gt → int_cmp (plus x z) (plus y z) ≢ Ordering.gt
unfolding int_cmp plus
plus_mono x y z h = ground arith

pub int_ltb_trans :
    (x y z : ℤ) → int_cmp x y ≢ Ordering.gt → int_ltb y z ≡ true → int_ltb x z ≡ true
unfolding int_cmp int_ltb
int_ltb_trans x y z h k = ground arith

pub int_eq_iff : (x y : ℤ) → (int_eq x y ≡ true) ↔ (x ≡ y)
unfolding int_cmp int_eq
int_eq_iff x y = ground arith
