-- ===== src/DomainPolicy/Evaluate/Ranking.antt =====
-- The sort of the candidates: a rearrangement in which each candidate ranks no lower than those
-- after it (rust/crates/domain-policy/src/matcher.rs, `candidates.sort_by(candidate_cmp)`).
use mathlib.Core.List.Perm
use mathlib.Core.List.{Perm}
use shittim.Base.{List, [], ◌∷◌, Ordering, ◌≡◌, ◌≢◌, All, refl, ◌⊎◌, inl, inr}
use shittim.DomainPolicy.Matcher.{Candidate}
use shittim.DomainPolicy.Evaluate.{candidate_cmp, insert_candidate, sort_candidates}
use shittim.DomainPolicy.Evaluate.Order.{candidate_cmp_trans, candidate_cmp-gt}

-- `candidate` ranks no lower than any of `others`.
abbrev pub IsTop : Candidate → List Candidate → Type 0
IsTop candidate others = All (λ other. candidate_cmp candidate other ≢ Ordering.gt) others

pub data IsRanked : List Candidate → Type 0 where
  nothing : IsRanked []
  first :
      {candidate : Candidate} {candidates : List Candidate}
      → IsTop candidate candidates
      → IsRanked candidates
      → IsRanked (candidate ∷ candidates)

-- Whether the candidate is inserted later, with what inserting it then gives.
insert_candidate-cases :
    (candidate other : Candidate) (candidates : List Candidate)
    → ((candidate_cmp candidate other ≡ Ordering.gt)
        × (insert_candidate candidate (other ∷ candidates)
            ≡ other ∷ insert_candidate candidate candidates))
      ⊎ ((candidate_cmp candidate other ≢ Ordering.gt)
          × (insert_candidate candidate (other ∷ candidates) ≡ candidate ∷ other ∷ candidates))
unfolding insert_candidate
insert_candidate-cases candidate other candidates = go (candidate_cmp candidate other) refl
  where
    go :
        (o : Ordering)
        → candidate_cmp candidate other ≡ o
        → ((candidate_cmp candidate other ≡ Ordering.gt)
            × (insert_candidate candidate (other ∷ candidates)
                ≡ other ∷ insert_candidate candidate candidates))
          ⊎ ((candidate_cmp candidate other ≢ Ordering.gt)
              × (insert_candidate candidate (other ∷ candidates) ≡ candidate ∷ other ∷ candidates))
    go Ordering.lt e = inr (λ g. cc, rw (insert_candidate, e))
    go Ordering.eq e = inr (λ g. cc, rw (insert_candidate, e))
    go Ordering.gt e = inl (e, rw (insert_candidate, e))

IsTop-trans :
    (x y : Candidate) (candidates : List Candidate)
    → candidate_cmp x y ≢ Ordering.gt
    → IsTop y candidates
    → IsTop x candidates
IsTop-trans x y [] h top = tt
IsTop-trans x y (z ∷ candidates) h top =
    (candidate_cmp_trans x y z h top.0, IsTop-trans x y candidates h top.1)

IsTop-insert_candidate :
    (x candidate : Candidate) (candidates : List Candidate)
    → candidate_cmp x candidate ≢ Ordering.gt
    → IsTop x candidates
    → IsTop x (insert_candidate candidate candidates)
unfolding insert_candidate
IsTop-insert_candidate x candidate [] h top = (h, tt)
IsTop-insert_candidate x candidate (other ∷ candidates) h top =
    elim (insert_candidate-cases candidate other candidates) [
      | inl (later, e) ↦ rw e (top.0, IsTop-insert_candidate x candidate candidates h top.1)
      | inr (here, e) ↦ rw e (h, top)
    ]

insert_candidate-IsRanked :
    (candidate : Candidate) (candidates : List Candidate)
    → IsRanked candidates
    → IsRanked (insert_candidate candidate candidates)
unfolding insert_candidate
insert_candidate-IsRanked candidate [] IsRanked.nothing = IsRanked.first tt IsRanked.nothing
insert_candidate-IsRanked candidate (other ∷ candidates) (IsRanked.first top ranked) =
    elim (insert_candidate-cases candidate other candidates) [
      | inl (later, e) ↦ rw e (
          IsRanked.first
            (IsTop-insert_candidate other candidate candidates
              (candidate_cmp-gt candidate other later) top)
            (insert_candidate-IsRanked candidate candidates ranked))
      | inr (here, e) ↦ rw e (
          IsRanked.first (here, IsTop-trans candidate other candidates here top)
            (IsRanked.first top ranked))
    ]

insert_candidate-perm :
    (candidate : Candidate) (candidates : List Candidate)
    → Perm (candidate ∷ candidates) (insert_candidate candidate candidates)
unfolding insert_candidate
insert_candidate-perm candidate [] = Perm.rfl
insert_candidate-perm candidate (other ∷ candidates) =
    elim (insert_candidate-cases candidate other candidates) [
      | inl (later, e) ↦ rw e (
          Perm.trans (Perm.swap other candidate candidates)
            (Perm.cons other (insert_candidate-perm candidate candidates)))
      | inr (here, e) ↦ rw e Perm.rfl
    ]

pub sort_candidates-IsRanked : (candidates : List Candidate) → IsRanked (sort_candidates candidates)
unfolding sort_candidates
sort_candidates-IsRanked [] = IsRanked.nothing
sort_candidates-IsRanked (candidate ∷ candidates) =
    insert_candidate-IsRanked candidate (sort_candidates candidates)
      (sort_candidates-IsRanked candidates)

pub sort_candidates-perm :
    (candidates : List Candidate) → Perm candidates (sort_candidates candidates)
unfolding sort_candidates
sort_candidates-perm [] = Perm.rfl
sort_candidates-perm (candidate ∷ candidates) =
    Perm.trans (Perm.cons candidate (sort_candidates-perm candidates))
      (insert_candidate-perm candidate (sort_candidates candidates))
