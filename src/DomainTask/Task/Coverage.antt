-- ===== src/DomainTask/Task/Coverage.antt =====
-- What `enforce_succeeded_coverage` accepts (rust/crates/domain-task/src/task.rs).
use shittim.Base.{
  suc, text_eq_refl, true, false, not, Option, none, some, List, [], ◌∷◌, map, ◌≡◌, ◌≢◌, ◌↔◌, refl,
  arith, is_empty, All, Result, ok, ◌>>=◌, reject_if, ok_or, Text, trim, is_blank, and_then-eq-ok,
  Bool-cases, inl, inr,
}
use shittim.Contracts.TaskTypes.{verified_ok}
use shittim.DomainTask.Error.{DomainTaskErrorCode, missing_evidence, invariant_violation}
use shittim.DomainTask.Types.{VerificationEvidenceSummary}
use shittim.DomainTask.CountMap.{CountMap, increment, occurrences}
use shittim.DomainTask.CountMap.Extensionality.{count_texts, counts_eq-count_texts}
use shittim.DomainTask.Task.{
  SuccessCriterionEvidence, TaskTransitionCommand, count_required, check_evidence, count_evidence,
  is_verified_ok, enforce_succeeded_coverage,
}

abbrev pub IsNotBlank : Text → Type 0
IsNotBlank s = is_blank s ≡ false

-- A claim that counts: it names a criterion, is satisfied, and a verification confirms it.
pub record IsProof (item : SuccessCriterionEvidence) : Type 0 where
  pub named : IsNotBlank item.criterion
  pub satisfied : item.satisfied ≡ true
  pub verified :
      (v : VerificationEvidenceSummary) × (item.verification ≡ some v) × (v.outcome ≡ verified_ok)

-- The required contents, and the contents for which evidence is given.
abbrev pub required_contents : TaskTransitionCommand → List Text
required_contents cmd = map trim cmd.required_success_criteria

abbrev pub proved_contents : TaskTransitionCommand → List Text
proved_contents cmd = map (λ item. trim item.criterion) cmd.success_criteria_evidence

pub record IsCovered (cmd : TaskTransitionCommand) : Type 0 where
  pub some_required : cmd.required_success_criteria ≢ []
  pub all_named : All IsNotBlank cmd.required_success_criteria
  pub all_proofs : All IsProof cmd.success_criteria_evidence
  pub same_multiset :
      (content : Text)
      → occurrences content (required_contents cmd) ≡ occurrences content (proved_contents cmd)

-- The last two checks of one round.
abbrev verification_check :
    Option VerificationEvidenceSummary → Result DomainTaskErrorCode (Unit {0})
verification_check o = do
  verification ← ok_or o missing_evidence
  reject_if (not (is_verified_ok verification.outcome)) invariant_violation

has_verified :
    (o : Option VerificationEvidenceSummary)
    → verification_check o ≡ ok tt
    → (v : VerificationEvidenceSummary) × (o ≡ some v) × (v.outcome ≡ verified_ok)
has_verified none h = cc
has_verified (some v) h = (v, refl, ground arith)

check_evidence_iff :
    (item : SuccessCriterionEvidence) → (check_evidence item ≡ ok tt) ↔ IsProof item
unfolding check_evidence
check_evidence_iff item = (
  λ h. record {
    named = ground arith;
    satisfied = ground arith;
    verified = has_verified item.verification (ground arith);
  },
  λ p. ground (arith, p.named, p.satisfied, p.verified.1, p.verified.2),
)

count_required_ok :
    (cs : List Text) (m : CountMap)
    → All IsNotBlank cs
    → count_required cs m ≡ ok (count_texts (map trim cs) m)
unfolding count_required count_texts
count_required_ok [] m a = refl
count_required_ok (c ∷ cs) m a = rw (a.0) (count_required_ok cs (increment (trim c) m) a.1)

count_required_inv :
    (cs : List Text) (m : CountMap) {m' : CountMap}
    → count_required cs m ≡ ok m'
    → All IsNotBlank cs × (m' ≡ count_texts (map trim cs) m)
unfolding count_required count_texts
count_required_inv [] m h = (tt, ground arith)
count_required_inv (c ∷ cs) m h = elim (Bool-cases (is_blank c)) [
  | inl blank ↦ cc (rw blank at h)
  | inr named ↦
      let r = count_required_inv cs (increment (trim c) m) (rw named at h) in ((named, r.0), r.1)
]

count_evidence_ok :
    (es : List SuccessCriterionEvidence) (m : CountMap)
    → All IsProof es
    → count_evidence es m ≡ ok (count_texts (map (λ item. trim item.criterion) es) m)
unfolding count_evidence count_texts
count_evidence_ok [] m a = refl
count_evidence_ok (e ∷ es) m a =
    rw ((check_evidence_iff e).1 a.0) (count_evidence_ok es (increment (trim e.criterion) m) a.1)

count_evidence_inv :
    (es : List SuccessCriterionEvidence) (m : CountMap) {m' : CountMap}
    → count_evidence es m ≡ ok m'
    → All IsProof es × (m' ≡ count_texts (map (λ item. trim item.criterion) es) m)
unfolding count_evidence count_texts
count_evidence_inv [] m h = (tt, ground arith)
count_evidence_inv (e ∷ es) m h =
    let (_, checked, more) = and_then-eq-ok (check_evidence e) _ h in
    let r = count_evidence_inv es (increment (trim e.criterion) m) more in
    (((check_evidence_iff e).0 checked, r.0), r.1)

occurrences-head : (x : Text) (xs : List Text) → occurrences x (x ∷ xs) ≡ suc (occurrences x xs)
unfolding occurrences
occurrences-head x xs = rw (text_eq_refl x)

-- Something is proved where something is required.
proofs_given :
    (cs : List Text) (es : List SuccessCriterionEvidence)
    → cs ≢ []
    → ((k : Text)
        → occurrences k (map trim cs) ≡ occurrences k (map (λ item. trim item.criterion) es))
    → is_empty es ≡ false
unfolding occurrences
proofs_given [] es n h = absurd (n refl)
proofs_given (c ∷ cs) [] n h =
    absurd (omega (arith, h (trim c), occurrences-head (trim c) (map trim cs)))
proofs_given (c ∷ cs) (e ∷ es) n h = refl

enforce_succeeded_coverage_sound :
    (cmd : TaskTransitionCommand) → enforce_succeeded_coverage cmd ≡ ok tt → IsCovered cmd
unfolding enforce_succeeded_coverage
enforce_succeeded_coverage_sound cmd h =
    let (_, given, h1) =
      and_then-eq-ok (reject_if (is_empty cmd.required_success_criteria) _) _ h in
    let (_, required, h2) = and_then-eq-ok (count_required cmd.required_success_criteria []) _ h1 in
    let (_, _, h3) = and_then-eq-ok (reject_if (is_empty cmd.success_criteria_evidence) _) _ h2 in
    let (_, proved, equal) =
      and_then-eq-ok (count_evidence cmd.success_criteria_evidence []) _ h3 in
    let (named, count_r) = count_required_inv cmd.required_success_criteria [] required in
    let (proofs, count_p) = count_evidence_inv cmd.success_criteria_evidence [] proved in
    record {
      some_required = λ e. cc (rw e at given);
      all_named = named;
      all_proofs = proofs;
      same_multiset =
          (counts_eq-count_texts (required_contents cmd) (proved_contents cmd)).0
            (rw (← count_r, ← count_p) (ground arith));
    }

enforce_succeeded_coverage_complete :
    (cmd : TaskTransitionCommand) → IsCovered cmd → enforce_succeeded_coverage cmd ≡ ok tt
unfolding enforce_succeeded_coverage
enforce_succeeded_coverage_complete cmd p =
    let given : is_empty cmd.required_success_criteria ≡ false = ground (arith, p.some_required) in
    rw (
      given,
      count_required_ok cmd.required_success_criteria [] p.all_named,
      proofs_given cmd.required_success_criteria cmd.success_criteria_evidence p.some_required
          p.same_multiset,
      count_evidence_ok cmd.success_criteria_evidence [] p.all_proofs,
      (counts_eq-count_texts (required_contents cmd) (proved_contents cmd)).1 p.same_multiset,
    )

-- The evidence of a command lets its task succeed exactly when at least one criterion is required,
-- no required content is blank, every claim is satisfied with a verification that ended
-- verified_ok, and required and proved contents, trimmed, are the same multiset.
pub enforce_succeeded_coverage_iff :
    (cmd : TaskTransitionCommand) → (enforce_succeeded_coverage cmd ≡ ok tt) ↔ IsCovered cmd
enforce_succeeded_coverage_iff cmd =
    (enforce_succeeded_coverage_sound cmd, enforce_succeeded_coverage_complete cmd)
