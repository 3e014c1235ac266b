-- ===== src/DomainPolicy/Uri/Best/Order.antt =====
-- The order of URI pattern scores (rust/crates/domain-policy/src/uri.rs,
-- `UriPatternScore::local_cmp`).
use shittim.Base.{
  Ordering, Option, none, some, ◌≡◌, ◌≢◌, arith, int_cmp-reverse, text_cmp-reverse, reverse_order,
  true, false,
}
use shittim.Base.{
  IsChain, IsChain-then_with, IsChain-int_cmp, IsChain-text_cmp, chain_le, then_with-reverse,
}
use shittim.DomainPolicy.Uri.Best.{UriPatternScore, local_cmp, is_better, neg_i32}

IsChain-local_cmp :
    (x y z : UriPatternScore) → IsChain (local_cmp x y) (local_cmp y z) (local_cmp x z)
unfolding local_cmp
IsChain-local_cmp x y z = IsChain-then_with _ _ _ _ _ _ (IsChain-int_cmp x.exact y.exact z.exact) (
    IsChain-then_with _ _ _ _ _ _
      (IsChain-int_cmp x.literal_components y.literal_components z.literal_components)
      (IsChain-then_with _ _ _ _ _ _
        (IsChain-int_cmp (neg_i32 x.single_globs) (neg_i32 y.single_globs) (neg_i32 z.single_globs))
        (IsChain-then_with _ _ _ _ _ _
          (IsChain-int_cmp (neg_i32 x.multi_globs) (neg_i32 y.multi_globs) (neg_i32 z.multi_globs))
          (IsChain-text_cmp x.pattern y.pattern z.pattern))))

local_cmp-reverse : (x y : UriPatternScore) → local_cmp y x ≡ reverse_order (local_cmp x y)
unfolding local_cmp
local_cmp-reverse x y = rw (
  int_cmp-reverse x.exact y.exact,
  int_cmp-reverse x.literal_components y.literal_components,
  int_cmp-reverse (neg_i32 x.single_globs) (neg_i32 y.single_globs),
  int_cmp-reverse (neg_i32 x.multi_globs) (neg_i32 y.multi_globs),
  text_cmp-reverse y.pattern x.pattern,
  then_with-reverse,
  then_with-reverse,
  then_with-reverse,
  then_with-reverse,
)

-- The second score is at least as good as the first.
abbrev pub Dominates : Option UriPatternScore → Option UriPatternScore → Type 0
Dominates none best = Unit
Dominates (some score) none = ⊥
Dominates (some score) (some best) = local_cmp score best ≢ Ordering.gt

pub Dominates-trans :
    (x y z : Option UriPatternScore) → Dominates x y → Dominates y z → Dominates x z
Dominates-trans none y z h k = tt
Dominates-trans (some x) none z h k = elim h [ ]
Dominates-trans (some x) (some y) none h k = elim k [ ]
Dominates-trans (some x) (some y) (some z) h k =
    chain_le (local_cmp x y) (local_cmp y z) (local_cmp x z) (IsChain-local_cmp x y z) h k

pub Dominates-refl : (x : Option UriPatternScore) → Dominates x x
Dominates-refl none = tt
Dominates-refl (some x) = λ e. ground (arith, local_cmp-reverse x x)

-- A score that is no better is dominated, and a better one dominates.
pub is_better-Dominates :
    (score : UriPatternScore) (best : Option UriPatternScore)
    → (is_better score best ≡ true → Dominates best (some score))
      × (is_better score best ≡ false → Dominates (some score) best)
unfolding is_better
is_better-Dominates score none = (λ h. tt, λ h. cc)
is_better-Dominates score (some old) =
    (λ h e. ground (arith, local_cmp-reverse score old), λ h e. ground arith)
