-- ===== src/DomainPolicy/Evaluate/Order.antt =====
-- The order of candidates (rust/crates/domain-policy/src/matcher.rs, `candidate_cmp`).
use shittim.Base.{
  Ordering, ◌≡◌, ◌≢◌, arith, text_cmp-reverse, reverse_order, int_cmp-reverse, compare-reverse,
  IsChain, IsChain-then_with, IsChain-int_cmp, IsChain-compare, IsChain-text_cmp, chain_le,
  then_with-reverse,
}
use shittim.DomainPolicy.Specificity.{Specificity, specificity_cmp, effect_rank}
use shittim.DomainPolicy.Matcher.{Candidate}
use shittim.DomainPolicy.Evaluate.{candidate_cmp}

-- The comparisons read backwards.
IsChain-flip : (a b c : Ordering) → IsChain a b c → IsChain b a c
IsChain-flip a b c h = record {
  lt_first = λ p q. h.lt_second q p;
  lt_second = λ p q. h.lt_first q p;
  both_eq = λ p q. h.both_eq q p;
}

IsChain-specificity_cmp :
    (s t u : Specificity)
    → IsChain (specificity_cmp s t) (specificity_cmp t u) (specificity_cmp s u)
unfolding specificity_cmp
IsChain-specificity_cmp s t u =
    IsChain-then_with _ _ _ _ _ _
      (IsChain-int_cmp s.constrained_dimension_count t.constrained_dimension_count
        u.constrained_dimension_count)
      (IsChain-then_with _ _ _ _ _ _
        (IsChain-int_cmp s.exact_dimension_count t.exact_dimension_count u.exact_dimension_count)
        (IsChain-then_with _ _ _ _ _ _
          (IsChain-int_cmp s.literal_uri_component_count t.literal_uri_component_count
            u.literal_uri_component_count)
          (IsChain-then_with _ _ _ _ _ _
            (IsChain-int_cmp s.negative_single_segment_glob_count
              t.negative_single_segment_glob_count u.negative_single_segment_glob_count)
            (IsChain-then_with _ _ _ _ _ _
              (IsChain-int_cmp s.negative_multi_segment_glob_count
                t.negative_multi_segment_glob_count u.negative_multi_segment_glob_count)
              (IsChain-int_cmp s.condition_constraint_count t.condition_constraint_count
                u.condition_constraint_count)))))

specificity_cmp-reverse :
    (s t : Specificity) → specificity_cmp t s ≡ reverse_order (specificity_cmp s t)
unfolding specificity_cmp
specificity_cmp-reverse s t = rw (
  int_cmp-reverse s.constrained_dimension_count t.constrained_dimension_count,
  int_cmp-reverse s.exact_dimension_count t.exact_dimension_count,
  int_cmp-reverse s.literal_uri_component_count t.literal_uri_component_count,
  int_cmp-reverse s.negative_single_segment_glob_count t.negative_single_segment_glob_count,
  int_cmp-reverse s.negative_multi_segment_glob_count t.negative_multi_segment_glob_count,
  int_cmp-reverse s.condition_constraint_count t.condition_constraint_count,
  then_with-reverse,
  then_with-reverse,
  then_with-reverse,
  then_with-reverse,
  then_with-reverse,
)

IsChain-candidate_cmp :
    (x y z : Candidate) → IsChain (candidate_cmp x y) (candidate_cmp y z) (candidate_cmp x z)
unfolding candidate_cmp
IsChain-candidate_cmp x y z =
    IsChain-then_with _ _ _ _ _ _
      (IsChain-flip _ _ _ (IsChain-int_cmp z.rule.priority y.rule.priority x.rule.priority))
      (IsChain-then_with _ _ _ _ _ _
        (IsChain-flip _ _ _ (IsChain-specificity_cmp z.specificity y.specificity x.specificity))
        (IsChain-then_with _ _ _ _ _ _
          (IsChain-flip _ _ _ (
            IsChain-compare (effect_rank z.rule.effect) (effect_rank y.rule.effect)
              (effect_rank x.rule.effect)))
          (IsChain-then_with _ _ _ _ _ _
            (IsChain-flip _ _ _ (IsChain-int_cmp z.rule.revision y.rule.revision x.rule.revision))
            (IsChain-flip _ _ _ (IsChain-text_cmp z.rule.id y.rule.id x.rule.id)))))

pub candidate_cmp-reverse :
    (x y : Candidate) → candidate_cmp y x ≡ reverse_order (candidate_cmp x y)
unfolding candidate_cmp
candidate_cmp-reverse x y = rw (
  int_cmp-reverse y.rule.priority x.rule.priority,
  specificity_cmp-reverse y.specificity x.specificity,
  compare-reverse (effect_rank y.rule.effect) (effect_rank x.rule.effect),
  int_cmp-reverse y.rule.revision x.rule.revision,
  text_cmp-reverse x.rule.id y.rule.id,
  then_with-reverse,
  then_with-reverse,
  then_with-reverse,
  then_with-reverse,
)

pub candidate_cmp_trans :
    (x y z : Candidate)
    → candidate_cmp x y ≢ Ordering.gt
    → candidate_cmp y z ≢ Ordering.gt
    → candidate_cmp x z ≢ Ordering.gt
candidate_cmp_trans x y z =
    chain_le (candidate_cmp x y) (candidate_cmp y z) (candidate_cmp x z)
      (IsChain-candidate_cmp x y z)

pub candidate_cmp-gt :
    (x y : Candidate) → candidate_cmp x y ≡ Ordering.gt → candidate_cmp y x ≢ Ordering.gt
candidate_cmp-gt x y h = ground (arith, candidate_cmp-reverse x y)
