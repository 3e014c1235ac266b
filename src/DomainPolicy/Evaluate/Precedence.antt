-- ===== src/DomainPolicy/Evaluate/Precedence.antt =====
-- Which of two candidates ranks before the other (rust/crates/domain-policy/src/matcher.rs,
-- `candidate_cmp`).
use mathlib.Core.Path.{sym, ap, ◌∙◌}
use shittim.Base.{
  Ordering, ℤ, compare, ◌⊎◌, inl, inr, ◌≡◌, ◌≢◌, ◌↔◌, refl, arith, List, [], ◌∷◌, text_cmp,
  text_cmp-eq_iff, reverse_order, int_cmp, int_cmp-eq_iff, int_cmp-reverse, then_with,
}
use shittim.Contracts.PolicyEnums.{PolicyRuleEffect}
use shittim.DomainPolicy.Specificity.{Specificity, specificity_cmp, effect_rank}
use shittim.DomainPolicy.Matcher.{Candidate}
use shittim.DomainPolicy.Evaluate.{candidate_cmp}
use shittim.DomainPolicy.Evaluate.Order.{candidate_cmp-reverse, candidate_cmp_trans}

-- Equal in all that ranks a candidate.
pub record IsSameRank (x y : Candidate) : Type 0 where
  pub same_priority : x.rule.priority ≡ y.rule.priority
  pub same_specificity : x.specificity ≡ y.specificity
  pub same_effect : x.rule.effect ≡ y.rule.effect
  pub same_revision : x.rule.revision ≡ y.rule.revision
  pub same_id : x.rule.id ≡ y.rule.id

int_cmp_self : (x : ℤ) → int_cmp x x ≡ Ordering.eq
int_cmp_self x = (int_cmp-eq_iff x x).1 refl

then_with-parts :
    (a b : Ordering) → then_with a b ≡ Ordering.eq → (a ≡ Ordering.eq) × (b ≡ Ordering.eq)
then_with-parts a b h = (ground arith, ground arith)

then_with-both : (a b : Ordering) → a ≡ Ordering.eq → b ≡ Ordering.eq → then_with a b ≡ Ordering.eq
then_with-both a b p q = rw (p, q)

specificity_cmp-eq : (s t : Specificity) → specificity_cmp s t ≡ Ordering.eq → s ≡ t
unfolding specificity_cmp
specificity_cmp-eq s t h =
    let p1 = then_with-parts _ _ h in
    let p2 = then_with-parts _ _ p1.1 in
    let p3 = then_with-parts _ _ p2.1 in
    let p4 = then_with-parts _ _ p3.1 in
    let p5 = then_with-parts _ _ p4.1 in
    λ i. record {
      constrained_dimension_count =
          (int_cmp-eq_iff s.constrained_dimension_count t.constrained_dimension_count).0 p1.0 i;
      exact_dimension_count =
          (int_cmp-eq_iff s.exact_dimension_count t.exact_dimension_count).0 p2.0 i;
      literal_uri_component_count =
          (int_cmp-eq_iff s.literal_uri_component_count t.literal_uri_component_count).0 p3.0 i;
      negative_single_segment_glob_count =
          (int_cmp-eq_iff s.negative_single_segment_glob_count
              t.negative_single_segment_glob_count).0
            p4.0 i;
      negative_multi_segment_glob_count =
          (int_cmp-eq_iff s.negative_multi_segment_glob_count t.negative_multi_segment_glob_count).0
            p5.0 i;
      condition_constraint_count =
          (int_cmp-eq_iff s.condition_constraint_count t.condition_constraint_count).0 p5.1 i;
    }

specificity_cmp_self : (s : Specificity) → specificity_cmp s s ≡ Ordering.eq
unfolding specificity_cmp
specificity_cmp_self s = then_with-both _ _ (int_cmp_self s.constrained_dimension_count) (
    then_with-both _ _ (int_cmp_self s.exact_dimension_count) (
      then_with-both _ _ (int_cmp_self s.literal_uri_component_count) (
        then_with-both _ _ (int_cmp_self s.negative_single_segment_glob_count) (
          then_with-both _ _ (int_cmp_self s.negative_multi_segment_glob_count)
            (int_cmp_self s.condition_constraint_count)))))

effect_rank-eq_iff :
    (e e' : PolicyRuleEffect) → (compare (effect_rank e) (effect_rank e') ≡ Ordering.eq) ↔ (e ≡ e')
effect_rank-eq_iff e e' = (λ h. ground arith, λ h. ground arith)

candidate_cmp-eq : (x y : Candidate) → candidate_cmp x y ≡ Ordering.eq → IsSameRank x y
unfolding candidate_cmp
candidate_cmp-eq x y h =
    let p1 = then_with-parts _ _ h in
    let p2 = then_with-parts _ _ p1.1 in
    let p3 = then_with-parts _ _ p2.1 in
    let p4 = then_with-parts _ _ p3.1 in
    record {
      same_priority = sym ((int_cmp-eq_iff y.rule.priority x.rule.priority).0 p1.0);
      same_specificity = sym (specificity_cmp-eq y.specificity x.specificity p2.0);
      same_effect = sym ((effect_rank-eq_iff y.rule.effect x.rule.effect).0 p3.0);
      same_revision = sym ((int_cmp-eq_iff y.rule.revision x.rule.revision).0 p4.0);
      same_id = (text_cmp-eq_iff x.rule.id y.rule.id).0 p4.1;
    }

IsSameRank-candidate_cmp : (x y : Candidate) → IsSameRank x y → candidate_cmp x y ≡ Ordering.eq
unfolding candidate_cmp
IsSameRank-candidate_cmp x y r =
    then_with-both _ _ ((int_cmp-eq_iff y.rule.priority x.rule.priority).1 (sym r.same_priority)) (
      then_with-both _ _ (rw (r.same_specificity, specificity_cmp_self y.specificity)) (
        then_with-both _ _ ((effect_rank-eq_iff y.rule.effect x.rule.effect).1 (sym r.same_effect))
          (then_with-both _ _
            ((int_cmp-eq_iff y.rule.revision x.rule.revision).1 (sym r.same_revision))
            ((text_cmp-eq_iff x.rule.id y.rule.id).1 r.same_id))))

-- The first of the two integers is the greater one.
abbrev pub IsMore : ℤ → ℤ → Type 0
IsMore m n = int_cmp m n ≡ Ordering.gt

-- The first pair that differs has the greater integer first.
abbrev pub IsLexMore : List (ℤ × ℤ) → Type 0
IsLexMore [] = ⊥
IsLexMore ((m, n) ∷ pairs) = IsMore m n ⊎ ((m ≡ n) × IsLexMore pairs)

-- More constrained dimensions, or as many and more exact ones, and so on.
abbrev pub IsFiner : Specificity → Specificity → Type 0
IsFiner s t = IsLexMore (
    (s.constrained_dimension_count, t.constrained_dimension_count)
    ∷ (s.exact_dimension_count, t.exact_dimension_count)
    ∷ (s.literal_uri_component_count, t.literal_uri_component_count)
    ∷ (s.negative_single_segment_glob_count, t.negative_single_segment_glob_count)
    ∷ (s.negative_multi_segment_glob_count, t.negative_multi_segment_glob_count)
    ∷ (s.condition_constraint_count, t.condition_constraint_count)
    ∷ [])

-- Deny is stricter than confirm and allow, and confirm than allow.
pub data IsStricter : PolicyRuleEffect → PolicyRuleEffect → Type 0 where
  deny_confirm : IsStricter PolicyRuleEffect.deny PolicyRuleEffect.confirm
  deny_allow : IsStricter PolicyRuleEffect.deny PolicyRuleEffect.allow
  confirm_allow : IsStricter PolicyRuleEffect.confirm PolicyRuleEffect.allow

-- The higher priority; of the same the finer specificity; of the same the stricter effect; of the
-- same the higher revision; of the same the smaller id.
abbrev pub RanksBefore : Candidate → Candidate → Type 0
RanksBefore x y =
    IsMore x.rule.priority y.rule.priority
    ⊎ ((x.rule.priority ≡ y.rule.priority)
        × (IsFiner x.specificity y.specificity
            ⊎ ((x.specificity ≡ y.specificity)
                × (IsStricter x.rule.effect y.rule.effect
                    ⊎ ((x.rule.effect ≡ y.rule.effect)
                        × (IsMore x.rule.revision y.rule.revision
                            ⊎ ((x.rule.revision ≡ y.rule.revision)
                                × (text_cmp x.rule.id y.rule.id ≡ Ordering.lt))))))))

then_with-lt_iff :
    {P E Q : Type 0} (a b : Ordering)
    → (a ≡ Ordering.lt) ↔ P
    → (a ≡ Ordering.eq) ↔ E
    → (b ≡ Ordering.lt) ↔ Q
    → (then_with a b ≡ Ordering.lt) ↔ (P ⊎ (E × Q))
then_with-lt_iff Ordering.lt b p e q = (λ h. inl (p.0 refl), λ h. refl)
then_with-lt_iff Ordering.eq b p e q =
    (λ h. inr (e.0 refl, q.0 h), λ h. elim h [ inl x ↦ cc (p.1 x) | inr y ↦ q.1 y.1 ])
then_with-lt_iff Ordering.gt b p e q =
    (λ h. cc, λ h. elim h [ inl x ↦ cc (p.1 x) | inr y ↦ cc (e.1 y.0) ])

int_cmp-lt_iff : (m n : ℤ) → (int_cmp n m ≡ Ordering.lt) ↔ IsMore m n
int_cmp-lt_iff m n =
    (λ h. ground (arith, int_cmp-reverse m n), λ h. ground (arith, int_cmp-reverse m n))

int_cmp-same_iff : (m n : ℤ) → (int_cmp n m ≡ Ordering.eq) ↔ (m ≡ n)
int_cmp-same_iff m n = (λ h. sym ((int_cmp-eq_iff n m).0 h), λ h. (int_cmp-eq_iff n m).1 (sym h))

lex_step :
    {Q : Type 0} (m n : ℤ) (b : Ordering)
    → (b ≡ Ordering.lt) ↔ Q
    → (then_with (int_cmp n m) b ≡ Ordering.lt) ↔ (IsMore m n ⊎ ((m ≡ n) × Q))
lex_step m n b q = then_with-lt_iff (int_cmp n m) b (int_cmp-lt_iff m n) (int_cmp-same_iff m n) q

lex_last : (m n : ℤ) → (int_cmp n m ≡ Ordering.lt) ↔ IsLexMore ((m, n) ∷ [])
lex_last m n = (
  λ h. inl ((int_cmp-lt_iff m n).0 h),
  λ h. elim h [ inl more ↦ (int_cmp-lt_iff m n).1 more | inr (same, nothing) ↦ absurd nothing ],
)

specificity_cmp-lt_iff : (s t : Specificity) → (specificity_cmp t s ≡ Ordering.lt) ↔ IsFiner s t
unfolding specificity_cmp
specificity_cmp-lt_iff s t =
    lex_step s.constrained_dimension_count t.constrained_dimension_count _ (
      lex_step s.exact_dimension_count t.exact_dimension_count _ (
        lex_step s.literal_uri_component_count t.literal_uri_component_count _ (
          lex_step s.negative_single_segment_glob_count t.negative_single_segment_glob_count _ (
            lex_step s.negative_multi_segment_glob_count t.negative_multi_segment_glob_count _
              (lex_last s.condition_constraint_count t.condition_constraint_count)))))

specificity_cmp-same_iff : (s t : Specificity) → (specificity_cmp t s ≡ Ordering.eq) ↔ (s ≡ t)
specificity_cmp-same_iff s t = (
  λ h. sym (specificity_cmp-eq t s h),
  λ h. ap (λ (u : Specificity). specificity_cmp t u) h ∙ specificity_cmp_self t,
)

effect_rank-lt_iff :
    (e e' : PolicyRuleEffect)
    → (compare (effect_rank e') (effect_rank e) ≡ Ordering.lt) ↔ IsStricter e e'
effect_rank-lt_iff PolicyRuleEffect.allow PolicyRuleEffect.allow = (λ h. cc, λ h. elim h [ ])
effect_rank-lt_iff PolicyRuleEffect.allow PolicyRuleEffect.confirm = (λ h. cc, λ h. elim h [ ])
effect_rank-lt_iff PolicyRuleEffect.allow PolicyRuleEffect.deny = (λ h. cc, λ h. elim h [ ])
effect_rank-lt_iff PolicyRuleEffect.confirm PolicyRuleEffect.allow = (λ h. confirm_allow, λ h. refl)
effect_rank-lt_iff PolicyRuleEffect.confirm PolicyRuleEffect.confirm = (λ h. cc, λ h. elim h [ ])
effect_rank-lt_iff PolicyRuleEffect.confirm PolicyRuleEffect.deny = (λ h. cc, λ h. elim h [ ])
effect_rank-lt_iff PolicyRuleEffect.deny PolicyRuleEffect.allow = (λ h. deny_allow, λ h. refl)
effect_rank-lt_iff PolicyRuleEffect.deny PolicyRuleEffect.confirm = (λ h. deny_confirm, λ h. refl)
effect_rank-lt_iff PolicyRuleEffect.deny PolicyRuleEffect.deny = (λ h. cc, λ h. elim h [ ])

effect_rank-same_iff :
    (e e' : PolicyRuleEffect) → (compare (effect_rank e') (effect_rank e) ≡ Ordering.eq) ↔ (e ≡ e')
effect_rank-same_iff e e' =
    (λ h. sym ((effect_rank-eq_iff e' e).0 h), λ h. (effect_rank-eq_iff e' e).1 (sym h))

candidate_cmp-lt_iff : (x y : Candidate) → (candidate_cmp x y ≡ Ordering.lt) ↔ RanksBefore x y
unfolding candidate_cmp
candidate_cmp-lt_iff x y =
    then_with-lt_iff _ _ (int_cmp-lt_iff x.rule.priority y.rule.priority)
      (int_cmp-same_iff x.rule.priority y.rule.priority)
      (then_with-lt_iff _ _ (specificity_cmp-lt_iff x.specificity y.specificity)
        (specificity_cmp-same_iff x.specificity y.specificity)
        (then_with-lt_iff _ _ (effect_rank-lt_iff x.rule.effect y.rule.effect)
          (effect_rank-same_iff x.rule.effect y.rule.effect)
          (then_with-lt_iff _ _ (int_cmp-lt_iff x.rule.revision y.rule.revision)
            (int_cmp-same_iff x.rule.revision y.rule.revision) (λ h. h, λ h. h))))

not_gt_trans :
    (a b c : Ordering)
    → (a ≢ Ordering.gt → b ≢ Ordering.gt → c ≢ Ordering.gt)
    → (a ≡ Ordering.gt) ⊎ ((b ≡ Ordering.gt) ⊎ (c ≢ Ordering.gt))
not_gt_trans Ordering.gt b c h = inl refl
not_gt_trans Ordering.lt Ordering.gt c h = inr (inl refl)
not_gt_trans Ordering.eq Ordering.gt c h = inr (inl refl)
not_gt_trans Ordering.lt Ordering.lt c h = inr (inr (h (λ e. cc) (λ e. cc)))
not_gt_trans Ordering.lt Ordering.eq c h = inr (inr (h (λ e. cc) (λ e. cc)))
not_gt_trans Ordering.eq Ordering.lt c h = inr (inr (h (λ e. cc) (λ e. cc)))
not_gt_trans Ordering.eq Ordering.eq c h = inr (inr (h (λ e. cc) (λ e. cc)))

-- The ranking is a total order of any candidates up to what ranks them. The comparison backwards is
-- the reverse. It is less exactly where the first has the higher priority, or the same and the finer
-- specificity, or both the same and the stricter effect, or all three the same and the higher
-- revision, or all four the same and the smaller id; it is equal exactly where all five are the
-- same. Of any x, y and z, x ranks after y, or y ranks after z, or x does not rank after z.
pub candidate_cmp_order :
    (x y z : Candidate)
    → (candidate_cmp y x ≡ reverse_order (candidate_cmp x y))
      × ((candidate_cmp x y ≡ Ordering.lt) ↔ RanksBefore x y)
      × ((candidate_cmp x y ≡ Ordering.eq) ↔ IsSameRank x y)
      × ((candidate_cmp x y ≡ Ordering.gt)
          ⊎ ((candidate_cmp y z ≡ Ordering.gt) ⊎ (candidate_cmp x z ≢ Ordering.gt)))
candidate_cmp_order x y z = (
  candidate_cmp-reverse x y,
  candidate_cmp-lt_iff x y,
  (candidate_cmp-eq x y, IsSameRank-candidate_cmp x y),
  not_gt_trans (candidate_cmp x y) (candidate_cmp y z) (candidate_cmp x z)
      (candidate_cmp_trans x y z),
)
