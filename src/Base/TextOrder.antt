-- ===== src/Base/TextOrder.antt =====
-- `a.as_bytes().cmp(b.as_bytes())`. UTF-8 keeps the order of scalar values, so the comparison of
-- bytes is the lexicographic comparison of scalar values.
use Prim.Native.Nat.{compare, Ordering}
use mathlib.Core.Path.{◌≡◌, refl}
use mathlib.Core.Logic.{◌↔◌}
use mathlib.Core.List.{[], ◌∷◌}
use native.Mathlib.Omega.{arith}
use shittim.Base.Strings.{Text}

-- `Ordering::then_with`
abbrev pub then_with : Ordering → Ordering → Ordering
then_with Ordering.lt o = Ordering.lt
then_with Ordering.eq o = o
then_with Ordering.gt o = Ordering.gt

abbrev pub reverse_order : Ordering → Ordering
reverse_order Ordering.lt = Ordering.gt
reverse_order Ordering.eq = Ordering.eq
reverse_order Ordering.gt = Ordering.lt

unfoldable pub text_cmp : Text → Text → Ordering
text_cmp [] [] = Ordering.eq
text_cmp [] (y ∷ ys) = Ordering.lt
text_cmp (x ∷ xs) [] = Ordering.gt
text_cmp (x ∷ xs) (y ∷ ys) = then_with (compare x y) (text_cmp xs ys)

pub text_cmp-eq_iff : (s t : Text) → (text_cmp s t ≡ Ordering.eq) ↔ (s ≡ t)
unfolding text_cmp
text_cmp-eq_iff [] [] = ground arith
text_cmp-eq_iff [] (y ∷ ys) = ground arith
text_cmp-eq_iff (x ∷ xs) [] = ground arith
text_cmp-eq_iff (x ∷ xs) (y ∷ ys) = ground (arith, text_cmp-eq_iff xs ys)

pub text_cmp-reverse : (s t : Text) → text_cmp t s ≡ reverse_order (text_cmp s t)
unfolding text_cmp
text_cmp-reverse [] [] = refl
text_cmp-reverse [] (y ∷ ys) = refl
text_cmp-reverse (x ∷ xs) [] = refl
text_cmp-reverse (x ∷ xs) (y ∷ ys) = ground (arith, text_cmp-reverse xs ys)

pub text_cmp-lt_trans :
    (s t u : Text)
    → text_cmp s t ≡ Ordering.lt
    → text_cmp t u ≡ Ordering.lt
    → text_cmp s u ≡ Ordering.lt
unfolding text_cmp
text_cmp-lt_trans [] [] u h k = cc
text_cmp-lt_trans [] (y ∷ ys) [] h k = cc
text_cmp-lt_trans [] (y ∷ ys) (z ∷ zs) h k = refl
text_cmp-lt_trans (x ∷ xs) [] u h k = cc
text_cmp-lt_trans (x ∷ xs) (y ∷ ys) [] h k = cc
text_cmp-lt_trans (x ∷ xs) (y ∷ ys) (z ∷ zs) h k = ground (arith, text_cmp-lt_trans xs ys zs)
