-- ===== src/Base/Chains.antt =====
-- Comparisons as total orders make them, closed under the lexicographic combination.
use Prim.Native.Nat.{ℕ, compare, Ordering}
use mathlib.Core.Path.{◌≡◌, refl}
use mathlib.Core.Logic.{◌≢◌}
use native.Mathlib.Omega.{arith}
use shittim.Base.Strings.{Text}
use shittim.Base.TextOrder.{text_cmp, text_cmp-eq_iff, text_cmp-lt_trans, then_with, reverse_order}
use shittim.Base.Int.{ℤ, int_cmp}

-- Three comparisons, of x with y, of y with z, and of x with z, as a total order makes them.
pub record IsChain (a b c : Ordering) : Type 0 where
  pub lt_first : a ≡ Ordering.lt → b ≢ Ordering.gt → c ≡ Ordering.lt
  pub lt_second : a ≢ Ordering.gt → b ≡ Ordering.lt → c ≡ Ordering.lt
  pub both_eq : a ≡ Ordering.eq → b ≡ Ordering.eq → c ≡ Ordering.eq

pub IsChain-then_with :
    (a b c a' b' c' : Ordering)
    → IsChain a b c
    → IsChain a' b' c'
    → IsChain (then_with a a') (then_with b b') (then_with c c')
IsChain-then_with a b c a' b' c' h k = record {
  lt_first = λ p q. ground (arith, h.lt_first, h.lt_second, h.both_eq, k.lt_first);
  lt_second = λ p q. ground (arith, h.lt_first, h.lt_second, h.both_eq, k.lt_second);
  both_eq = λ p q. ground (arith, h.both_eq, k.both_eq);
}

pub IsChain-int_cmp : (x y z : ℤ) → IsChain (int_cmp x y) (int_cmp y z) (int_cmp x z)
unfolding int_cmp
IsChain-int_cmp x y z = record {
  lt_first = λ p q. ground arith;
  lt_second = λ p q. ground arith;
  both_eq = λ p q. ground arith;
}

pub IsChain-text_cmp : (s t u : Text) → IsChain (text_cmp t s) (text_cmp u t) (text_cmp u s)
IsChain-text_cmp s t u = record {
  lt_first = λ p q. ground (arith, text_cmp-eq_iff u t, text_cmp-lt_trans u t s);
  lt_second = λ p q. ground (arith, text_cmp-eq_iff t s, text_cmp-lt_trans u t s);
  both_eq = λ p q. ground (arith, text_cmp-eq_iff u t, text_cmp-eq_iff t s, text_cmp-eq_iff u s);
}

pub IsChain-compare : (x y z : ℕ) → IsChain (compare x y) (compare y z) (compare x z)
IsChain-compare x y z = record {
  lt_first = λ p q. ground arith;
  lt_second = λ p q. ground arith;
  both_eq = λ p q. ground arith;
}

pub compare-reverse : (x y : ℕ) → compare y x ≡ reverse_order (compare x y)
compare-reverse x y = ground arith

pub chain_le :
    (a b c : Ordering) → IsChain a b c → a ≢ Ordering.gt → b ≢ Ordering.gt → c ≢ Ordering.gt
chain_le a b c h p q e = ground (arith, h.lt_first, h.lt_second, h.both_eq)

pub then_with-reverse :
    (a b : Ordering) → then_with (reverse_order a) (reverse_order b) ≡ reverse_order (then_with a b)
then_with-reverse Ordering.lt b = refl
then_with-reverse Ordering.eq b = refl
then_with-reverse Ordering.gt b = refl
