-- ===== src/DomainPolicy/Specificity.antt =====
-- How specific a rule matches (rust/crates/domain-policy/src/matcher.rs: `Specificity` and what adds
-- to it), and the outcome of one matching step.
use shittim.Base.{
  ℕ, Bool, true, false, Option, none, some, Ordering, if◌then◌else◌, Result, ok, err, then_with, ℤ,
  pos, int_cmp, add_i32, sub_i32,
}
use shittim.Contracts.PolicyEnums.{
  ActorAuthenticationLevel, PolicyRuleActorMatchAuthLevelMin, SideEffectClass, PolicyRuleEffect,
}
use shittim.DomainPolicy.Error.{PolicyErrorCode}
use shittim.DomainPolicy.Uri.Best.{UriPatternScore, is_zero}
use shittim.DomainPolicy.ActionPatterns.{ActionScore}

pub record Specificity : Type 0 where
  pub constrained_dimension_count : ℤ
  pub exact_dimension_count : ℤ
  pub literal_uri_component_count : ℤ
  pub negative_single_segment_glob_count : ℤ
  pub negative_multi_segment_glob_count : ℤ
  pub condition_constraint_count : ℤ

-- `Specificity::default()`
abbrev pub default_specificity : Specificity
default_specificity = record {
  constrained_dimension_count = pos 0;
  exact_dimension_count = pos 0;
  literal_uri_component_count = pos 0;
  negative_single_segment_glob_count = pos 0;
  negative_multi_segment_glob_count = pos 0;
  condition_constraint_count = pos 0;
}

-- The derived `Ord`: the fields in order.
unfoldable pub specificity_cmp : Specificity → Specificity → Ordering
unfolding int_cmp
specificity_cmp s t =
    then_with (int_cmp s.constrained_dimension_count t.constrained_dimension_count) (
      then_with (int_cmp s.exact_dimension_count t.exact_dimension_count) (
        then_with (int_cmp s.literal_uri_component_count t.literal_uri_component_count) (
          then_with
            (int_cmp s.negative_single_segment_glob_count t.negative_single_segment_glob_count)
            (then_with
              (int_cmp s.negative_multi_segment_glob_count t.negative_multi_segment_glob_count)
              (int_cmp s.condition_constraint_count t.condition_constraint_count)))))

-- `MatchOutcome<T>` and `MatchResult<T>`: a step fails, does not match, or matches with a value.
pub data MatchOutcome (A : Type 0) : Type 0 where
  not_matched : MatchOutcome A
  matched : A → MatchOutcome A

abbrev pub MatchResult : Type 0 → Type 0
MatchResult A = Result PolicyErrorCode (MatchOutcome A)

infixl 5 ◌>>=◌ ◌>>◌
abbrev pub ◌>>=◌ : {A B : Type 0} → MatchResult A → (A → MatchResult B) → MatchResult B
err failure >>= rest = err failure
ok not_matched >>= rest = ok not_matched
ok (matched value) >>= rest = rest value

abbrev pub ◌>>◌ : {B : Type 0} → MatchResult (Unit {0}) → MatchResult B → MatchResult B
step >> rest = step >>= λ done. rest

-- `if !b { return Ok(NotMatched) }`, and `r?`
abbrev pub require : Bool → MatchResult (Unit {0})
require true = ok (matched tt)
require false = ok not_matched

abbrev pub lift : {A : Type 0} → Result PolicyErrorCode A → MatchResult A
lift (err failure) = err failure
lift (ok value) = ok (matched value)

unfoldable pub constrain : Specificity → Specificity
unfolding add_i32
constrain score = record score {
  constrained_dimension_count = add_i32 score.constrained_dimension_count (pos 1);
}

unfoldable pub constrain_exact : Specificity → Specificity
unfolding add_i32
constrain_exact score = record score {
  constrained_dimension_count = add_i32 score.constrained_dimension_count (pos 1);
  exact_dimension_count = add_i32 score.exact_dimension_count (pos 1);
}

unfoldable pub constrain_condition : Specificity → Specificity
unfolding add_i32
constrain_condition score = record score {
  constrained_dimension_count = add_i32 score.constrained_dimension_count (pos 1);
  condition_constraint_count = add_i32 score.condition_constraint_count (pos 1);
}

unfoldable pub constrain_condition_boolean : Specificity → Specificity
unfolding add_i32 constrain_exact
constrain_condition_boolean score =
    let exact = constrain_exact score in
    record exact { condition_constraint_count = add_i32 exact.condition_constraint_count (pos 1) }

unfoldable pub accumulate_uri_score : Specificity → UriPatternScore → Specificity
unfolding add_i32 sub_i32
accumulate_uri_score score selected = record score {
  exact_dimension_count = add_i32 score.exact_dimension_count selected.exact;
  literal_uri_component_count =
      add_i32 score.literal_uri_component_count selected.literal_components;
  negative_single_segment_glob_count =
      sub_i32 score.negative_single_segment_glob_count selected.single_globs;
  negative_multi_segment_glob_count =
      sub_i32 score.negative_multi_segment_glob_count selected.multi_globs;
}

unfoldable pub add_uri_score : Specificity → Option UriPatternScore → MatchResult Specificity
unfolding constrain accumulate_uri_score
add_uri_score score none = ok not_matched
add_uri_score score (some selected) = ok (matched (accumulate_uri_score (constrain score) selected))

abbrev with_exactness : Specificity → ℤ → Specificity
with_exactness score exact = record score {
  exact_dimension_count = add_i32 score.exact_dimension_count exact;
  negative_single_segment_glob_count =
      if is_zero exact
      then sub_i32 score.negative_single_segment_glob_count (pos 1)
      else score.negative_single_segment_glob_count;
}

unfoldable pub add_action_score : Specificity → Option ActionScore → MatchResult Specificity
unfolding add_i32 sub_i32 constrain int_cmp
add_action_score score none = ok not_matched
add_action_score score (some selected) = ok (matched (with_exactness (constrain score) selected.0))

abbrev pub auth_rank : ActorAuthenticationLevel → ℕ
auth_rank ActorAuthenticationLevel.unauthenticated = 0
auth_rank ActorAuthenticationLevel.asserted = 1
auth_rank ActorAuthenticationLevel.platform_verified = 2
auth_rank ActorAuthenticationLevel.system_authenticated = 3

abbrev pub rule_auth_rank : PolicyRuleActorMatchAuthLevelMin → ℕ
rule_auth_rank PolicyRuleActorMatchAuthLevelMin.unauthenticated = 0
rule_auth_rank PolicyRuleActorMatchAuthLevelMin.asserted = 1
rule_auth_rank PolicyRuleActorMatchAuthLevelMin.platform_verified = 2
rule_auth_rank PolicyRuleActorMatchAuthLevelMin.system_authenticated = 3

abbrev pub side_effect_rank : SideEffectClass → ℕ
side_effect_rank SideEffectClass.s0 = 0
side_effect_rank SideEffectClass.s1 = 1
side_effect_rank SideEffectClass.s2 = 2
side_effect_rank SideEffectClass.s3 = 3
side_effect_rank SideEffectClass.s4 = 4
side_effect_rank SideEffectClass.s5 = 5

abbrev pub effect_rank : PolicyRuleEffect → ℕ
effect_rank PolicyRuleEffect.allow = 0
effect_rank PolicyRuleEffect.confirm = 1
effect_rank PolicyRuleEffect.deny = 2
