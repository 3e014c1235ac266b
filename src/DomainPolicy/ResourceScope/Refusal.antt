-- ===== src/DomainPolicy/ResourceScope/Refusal.antt =====
-- Which input a refusal of TaskScope containment names
-- (rust/crates/domain-policy/src/resource_scope.rs).
use shittim.Base.{
  ℕ, zero, suc, ◌+◌, Option, List, [], ◌∷◌, ◌≡◌, ◌⊎◌, inl, inr, refl, arith, All, Result, ok, err,
  and_then, Text, text_eq_iff,
}
use shittim.DomainPolicy.Error.{PolicyErrorCode}
use shittim.DomainPolicy.Uri.{Url, NormalizedUri, normalize_uri_pattern_value, normalize_uri_value}
use shittim.DomainPolicy.ResourceScope.{
  ResourceContainmentErrorCode, ResourceContainmentInputKind, ResourceContainmentError,
  invalid_scope_pattern, invalid_resource_uri, resource_pattern, exclusion, resource_ref,
  check_stored, check_ref, validate_stored_from, validate_refs_from,
  resource_refs_within_task_scope,
}
use shittim.DomainPolicy.ResourceScope.Parsing.{
  IsStoredPattern, IsLegalRef, check_stored_sound, check_ref_sound, validate_stored_from_sound,
  Parsed-IsStoredPattern,
}

-- The element at the index lacks the property, and all before it have it.
abbrev pub FirstWithout {ℓ} : {A : Type ℓ} → (A → Type 0) → List A → ℕ → Type 0
FirstWithout P [] index = ⊥
FirstWithout P (x ∷ xs) zero = P x → ⊥
FirstWithout P (x ∷ xs) (suc index) = P x × FirstWithout P xs index

-- What an error says.
abbrev pub Names :
    ResourceContainmentError
    → ResourceContainmentErrorCode
    → ResourceContainmentInputKind
    → ℕ
    → Type 0
Names e code kind index = (e.code ≡ code) × (e.input_kind ≡ kind) × (e.index ≡ index)

-- A pattern that is refused is illegal or not in normal form.
check_stored_refusal :
    (kind : ResourceContainmentInputKind) (index : ℕ) (pattern : Text)
    (e : ResourceContainmentError) (parsed : Result PolicyErrorCode NormalizedUri)
    → check_stored kind index pattern parsed ≡ err e
    → ((uri : NormalizedUri) → parsed ≡ ok uri → uri.value ≡ pattern → ⊥)
      × Names e invalid_scope_pattern kind index
unfolding check_stored
check_stored_refusal kind index pattern e (err source) h =
    (λ uri p q. cc, (ground arith, ground arith, ground arith))
check_stored_refusal kind index pattern e (ok normalized) h = (
  λ uri p q. ground (arith, text_eq_iff normalized.value pattern),
  (ground arith, ground arith, ground arith),
)

check_ref_refusal :
    (index : ℕ) (e : ResourceContainmentError) (parsed : Result PolicyErrorCode NormalizedUri)
    → check_ref index parsed ≡ err e
    → ((uri : NormalizedUri) → parsed ≡ ok uri → ⊥)
      × Names e invalid_resource_uri resource_ref index
unfolding check_ref
check_ref_refusal index e (err source) h = (λ uri p. cc, (ground arith, ground arith, ground arith))
check_ref_refusal index e (ok value) h = absurd (ground arith)

-- A chain that fails, fails at its first step or behind it.
err-cases :
    {E A B : Type 0} (first : Result E A) (rest : A → Result E B) {e : E}
    → and_then first rest ≡ err e
    → (first ≡ err e) ⊎ ((a : A) × (first ≡ ok a) × (rest a ≡ err e))
err-cases (err e') rest h = inl (ground arith)
err-cases (ok a) rest h = inr (a, refl, h)

module _ (url_parse : Text → Option Url) where
  stored_refusal :
      (kind : ResourceContainmentInputKind) (index : ℕ) (patterns : List Text)
      (e : ResourceContainmentError)
      → validate_stored_from url_parse kind index patterns ≡ err e
      → (offset : ℕ) × FirstWithout (IsStoredPattern url_parse) patterns offset
        × Names e invalid_scope_pattern kind (index + offset)
  unfolding validate_stored_from
  stored_refusal kind index [] e h = absurd (ground arith)
  stored_refusal kind index (pattern ∷ patterns) e h =
      elim (err-cases
        (check_stored kind index pattern (normalize_uri_pattern_value url_parse pattern)) _ h) [
          | inl here ↦
              let (bad, named) =
                check_stored_refusal kind index pattern e
                  (normalize_uri_pattern_value url_parse pattern) here in
              (0, λ p. bad p.0 p.1 p.2, (named.0, named.1, omega (arith, named.2)))
          | inr (uri, first, h1) ↦
              let parsed =
                check_stored_sound kind index pattern uri
                  (normalize_uri_pattern_value url_parse pattern) first in
              elim (err-cases (validate_stored_from url_parse kind (suc index) patterns) _ h1) [
                | inl later ↦
                    let (offset, bad, named) = stored_refusal kind (suc index) patterns e later in
                    (
                      suc offset,
                      ((uri, parsed.0, parsed.1), bad),
                      (named.0, named.1, omega (arith, named.2)),
                    )
                | inr (rest, _, h2) ↦ absurd (ground arith)
              ]
        ]

  ref_refusal :
      (index : ℕ) (resources : List Text) (e : ResourceContainmentError)
      → validate_refs_from url_parse index resources ≡ err e
      → (offset : ℕ) × FirstWithout (IsLegalRef url_parse) resources offset
        × Names e invalid_resource_uri resource_ref (index + offset)
  unfolding validate_refs_from
  ref_refusal index [] e h = absurd (ground arith)
  ref_refusal index (resource ∷ resources) e h =
      elim (err-cases (check_ref index (normalize_uri_value url_parse resource)) _ h) [
        | inl here ↦
            let (bad, named) =
              check_ref_refusal index e (normalize_uri_value url_parse resource) here in
            (0, λ p. bad p.0 p.1, (named.0, named.1, omega (arith, named.2)))
        | inr (uri, first, h1) ↦
            let parsed = check_ref_sound index uri (normalize_uri_value url_parse resource) first in
            elim (err-cases (validate_refs_from url_parse (suc index) resources) _ h1) [
              | inl later ↦
                  let (offset, bad, named) = ref_refusal (suc index) resources e later in
                  (suc offset, ((uri, parsed), bad), (named.0, named.1, omega (arith, named.2)))
              | inr (rest, _, h2) ↦ absurd (ground arith)
            ]
      ]

  -- A refusal names the first invalid input: of the patterns; if these are all valid, of the
  -- exclusions; if these are too, of the resources.
  pub resource_refs_within_task_scope-err :
      (patterns exclusions resources : List Text) (e : ResourceContainmentError)
      → resource_refs_within_task_scope url_parse patterns exclusions resources ≡ err e
      → (index : ℕ) × (((FirstWithout (IsStoredPattern url_parse) patterns index)
            × Names e invalid_scope_pattern resource_pattern index)
          ⊎ ((All (IsStoredPattern url_parse) patterns
                × FirstWithout (IsStoredPattern url_parse) exclusions index
                × Names e invalid_scope_pattern exclusion index)
              ⊎ (All (IsStoredPattern url_parse) patterns
                  × All (IsStoredPattern url_parse) exclusions
                  × FirstWithout (IsLegalRef url_parse) resources index
                  × Names e invalid_resource_uri resource_ref index)))
  unfolding resource_refs_within_task_scope
  resource_refs_within_task_scope-err patterns exclusions resources e h =
      elim (err-cases (validate_stored_from url_parse resource_pattern 0 patterns) _ h) [
        | inl first ↦
            let (index, bad, named) = stored_refusal resource_pattern 0 patterns e first in
            (index, inl (bad, (named.0, named.1, omega (arith, named.2))))
        | inr (includes, valid_patterns, h1) ↦
            let ps = Parsed-IsStoredPattern url_parse patterns includes (
              validate_stored_from_sound url_parse resource_pattern 0 patterns includes
                valid_patterns) in
            elim (err-cases (validate_stored_from url_parse exclusion 0 exclusions) _ h1) [
              | inl second ↦
                  let (index, bad, named) = stored_refusal exclusion 0 exclusions e second in
                  (index, inr (inl (ps, bad, (named.0, named.1, omega (arith, named.2)))))
              | inr (excluded, valid_exclusions, h2) ↦
                  let es = Parsed-IsStoredPattern url_parse exclusions excluded (
                    validate_stored_from_sound url_parse exclusion 0 exclusions excluded
                      valid_exclusions) in
                  elim (err-cases (validate_refs_from url_parse 0 resources) _ h2) [
                    | inl third ↦
                        let (index, bad, named) = ref_refusal 0 resources e third in
                        (index, inr (inr (ps, es, bad, (named.0, named.1, omega (arith, named.2)))))
                    | inr (uris, _, h3) ↦ absurd (ground arith)
                  ]
            ]
      ]
