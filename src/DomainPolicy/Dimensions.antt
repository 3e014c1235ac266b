-- ===== src/DomainPolicy/Dimensions.antt =====
-- The dimensions in which a rule is matched: actor, content origins, resources and action
-- (rust/crates/domain-policy/src/matcher.rs).
use shittim.Base.{
  ℕ, Bool, true, false, not, ◌&&◌, ◌||◌, Option, none, some, List, [], ◌∷◌, Ordering, ltb, leb,
  if◌then◌else◌, is_empty, any, is_present, Result, ok, err, Text, text_eq, text_cmp, then_with, ℤ,
  int_cmp,
}
use shittim.Base as Base
use shittim.Contracts.PolicyEnums.{
  entry_point_eq, actor_kind_str, actor_match_kind_str, content_origin_kind_str,
  origin_match_kind_str, PolicyRuleContentOriginMatchKindsItem, ContentOriginKind,
}
use shittim.Contracts.PolicyTypes.{PolicyRule, ContentOrigin}
use shittim.DomainPolicy.Error.{PolicyErrorCode}
use shittim.DomainPolicy.Uri.{NormalizedUri}
use shittim.DomainPolicy.Uri.Best.{UriPatternScore, best_uri_pattern, any_uri_pattern, neg_i32}
use shittim.DomainPolicy.ActionPatterns.{best_action_pattern}
use shittim.DomainPolicy.Context.{Platform, PolicyEvaluationContext}
use shittim.DomainPolicy.Specificity.{
  Specificity, matched, MatchResult, ◌>>=◌, ◌>>◌, require, lift, constrain, constrain_exact,
  accumulate_uri_score, add_uri_score, add_action_score, auth_rank, rule_auth_rank,
  side_effect_rank,
}
use shittim.DomainPolicy.Rules.{nonempty, normalize_source_uri}

unfoldable pub uri_score_cmp : UriPatternScore → UriPatternScore → Ordering
unfolding int_cmp text_cmp
uri_score_cmp left right = then_with (int_cmp left.exact right.exact) (
    then_with (int_cmp left.literal_components right.literal_components) (
      then_with (int_cmp (neg_i32 left.single_globs) (neg_i32 right.single_globs)) (
        then_with (int_cmp (neg_i32 left.multi_globs) (neg_i32 right.multi_globs))
          (text_cmp right.pattern left.pattern))))

-- `if best.is_none_or(|old| uri_score_cmp(&candidate, old).is_gt()) { best = Some(candidate) }`
unfoldable pub better_uri : Option UriPatternScore → Option UriPatternScore → Option UriPatternScore
unfolding uri_score_cmp
better_uri none best = best
better_uri (some candidate) none = some candidate
better_uri (some candidate) (some old) = elim (uri_score_cmp candidate old) [
  | Ordering.gt ↦ some candidate
  | _ ↦ some old
]

abbrev pub with_best : Specificity → Option UriPatternScore → Specificity
with_best score none = score
with_best score (some best) = accumulate_uri_score score best

abbrev pub constrain_if {ℓ} :
    {A : Type ℓ} → Option A → (Specificity → Specificity) → Specificity → Specificity
constrain_if none add score = score
constrain_if (some value) add score = add score

-- An optional exact constraint of the rule, and whether the fact meets it
abbrev pub exact_step : {A : Type 0} → Option A → (A → Bool) → Specificity → MatchResult Specificity
exact_step none meets score = ok (matched score)
exact_step (some value) meets score = do
  let exact = constrain_exact score
  require (meets value)
  ok (matched exact)

-- `kinds.is_none_or(|items| items.iter().any(…))`
unfoldable pub kind_matches :
    Option (List PolicyRuleContentOriginMatchKindsItem) → ContentOriginKind → Bool
unfolding text_eq
kind_matches none kind = true
kind_matches (some items) kind =
    any (λ item. text_eq (origin_match_kind_str item) (content_origin_kind_str kind)) items

module _ (platform : Platform) where
  -- `source_score` of one origin
  unfoldable pub source_score :
      Option (List Text) → Option Text → Result PolicyErrorCode (Option UriPatternScore)
  source_score none source_uri = ok none
  source_score (some patterns) none = ok none
  source_score (some patterns) (some source) =
      Base.and_then (normalize_source_uri platform source)
        (λ uri. best_uri_pattern platform.url_parse patterns uri)

  -- One round over the origins; the state is the best score and whether an origin matched.
  unfoldable pub origin_step :
      Option (List PolicyRuleContentOriginMatchKindsItem)
      → Option (List Text)
      → ContentOrigin
      → Option UriPatternScore × Bool
      → Result PolicyErrorCode (Option UriPatternScore × Bool)
  unfolding kind_matches source_score better_uri
  origin_step kinds sources origin (best, found) =
      if not (kind_matches kinds origin.kind)
      then ok (best, found)
      else Base.and_then (source_score sources origin.source_uri) (λ score.
        if is_present sources && not (is_present score)
        then ok (best, found)
        else ok (better_uri score best, true))

  unfoldable pub origins_from :
      Option (List PolicyRuleContentOriginMatchKindsItem)
      → Option (List Text)
      → List ContentOrigin
      → Option UriPatternScore × Bool
      → Result PolicyErrorCode (Option UriPatternScore × Bool)
  unfolding origin_step
  origins_from kinds sources [] state = ok state
  origins_from kinds sources (origin ∷ origins) state =
      Base.and_then (origin_step kinds sources origin state)
        (λ next. origins_from kinds sources origins next)

  unfoldable pub match_content_origins :
      PolicyRule → PolicyEvaluationContext → Specificity → MatchResult Specificity
  unfolding nonempty origins_from
  match_content_origins rule context score =
      let kinds = nonempty rule.content_origin_match.kinds in
      let sources = nonempty rule.content_origin_match.source_patterns in
      if not (is_present kinds) && not (is_present sources) then ok (matched score) else (do
        let constrained = constrain_if sources constrain (constrain_if kinds constrain_exact score)
        state ← lift (origins_from kinds sources context.content_origins (none, false))
        require state.1
        ok (matched (with_best constrained state.0)))

  -- The loop over the exclusions: whether one of the resources is excluded
  unfoldable pub any_excluded : List Text → List NormalizedUri → Result PolicyErrorCode Bool
  any_excluded patterns [] = ok false
  any_excluded patterns (resource ∷ resources) =
      let rest = any_excluded patterns resources in
      Base.and_then (any_uri_pattern platform.url_parse patterns resource)
        (λ excluded. if excluded then ok true else rest)

  -- The loop over the inclusions: the best score of all resources
  unfoldable pub best_resource :
      List Text
      → List NormalizedUri
      → Option UriPatternScore
      → Result PolicyErrorCode (Option UriPatternScore)
  unfolding better_uri
  best_resource patterns [] best = ok best
  best_resource patterns (resource ∷ resources) best =
      Base.and_then (best_uri_pattern platform.url_parse patterns resource)
        (λ candidate. best_resource patterns resources (better_uri candidate best))

  -- `if let Some(patterns) = excludes`, and `if let Some(patterns) = includes`
  abbrev pub exclude_step : Option (List Text) → List NormalizedUri → MatchResult (Unit {0})
  exclude_step none resources = ok (matched tt)
  exclude_step (some patterns) resources = do
    excluded ← lift (any_excluded patterns resources)
    require (not excluded)

  abbrev pub include_step :
      Option (List Text) → List NormalizedUri → Specificity → MatchResult Specificity
  include_step none resources score = ok (matched score)
  include_step (some patterns) resources score = do
    best ← lift (best_resource patterns resources none)
    add_uri_score (constrain score) best

  unfoldable pub match_resources :
      PolicyRule → List NormalizedUri → Specificity → MatchResult Specificity
  unfolding nonempty any_excluded best_resource
  match_resources rule resources score = do
    let includes = nonempty (some rule.resource_match.scope_patterns)
    let excludes = nonempty (some rule.resource_match.exclude_patterns)
    require (not ((is_present includes || is_present excludes) && is_empty resources))
    exclude_step excludes resources
    include_step includes resources score

  abbrev pub action_step : Option (List Text) → Text → Specificity → MatchResult Specificity
  action_step none value score = ok (matched score)
  action_step (some patterns) value score = do
    best ← lift (best_action_pattern patterns value)
    add_action_score score best

  unfoldable pub match_action :
      PolicyRule → PolicyEvaluationContext → Specificity → MatchResult Specificity
  unfolding nonempty
  match_action rule context score = do
    score' ←
        action_step (nonempty (some rule.action_match.capability_ids)) context.capability_id score
    score'' ←
        action_step (nonempty (some rule.action_match.operation_patterns)) context.operation score'
    exact_step rule.action_match.side_effect_max
        (λ ceiling. leb (side_effect_rank context.side_effect_class) (side_effect_rank ceiling))
        score''

  -- The constraints of `rule.actor_match`, in the order of `match_rule`
  unfoldable pub match_actor :
      PolicyRule → PolicyEvaluationContext → Specificity → MatchResult Specificity
  unfolding text_eq nonempty
  match_actor rule context score = do
    kind_score ←
        exact_step rule.actor_match.kind
          (λ kind. text_eq (actor_match_kind_str kind) (actor_kind_str context.actor.kind)) score
    source_score ← elim (nonempty rule.actor_match.source_patterns) [
      | none ↦ ok (matched kind_score)
      | some patterns ↦ do
        actor_source ← lift (normalize_source_uri platform context.actor.source)
        best ← lift (best_uri_pattern platform.url_parse patterns actor_source)
        add_uri_score kind_score best
    ]
    entry_score ←
        exact_step rule.actor_match.entry_point
          (λ entry_point. entry_point_eq entry_point context.entry_point) source_score
    exact_step rule.actor_match.auth_level_min
        (λ minimum. leb (rule_auth_rank minimum) (auth_rank context.actor.authentication_level))
        entry_score
