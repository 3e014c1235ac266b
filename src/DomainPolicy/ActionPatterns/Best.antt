-- ===== src/DomainPolicy/ActionPatterns/Best.antt =====
-- What a list of action patterns finds (rust/crates/domain-policy/src/matcher.rs).
use shittim.Base.{
  true, Option, none, some, List, [], ◌∷◌, ◌≡◌, ◌⊎◌, inl, inr, ◌↔◌, refl, arith, Bool-cases, All,
  Some, ok, and_then-eq-ok, Text, is_present,
}
use shittim.DomainPolicy.Uri.Best.{sort_texts, dedup}
use shittim.DomainPolicy.Uri.Best.Sorting.{All-dedup_sort, Some-dedup_sort}
use shittim.DomainPolicy.ActionPatterns.{
  ActionScore, better_action, best_action_from, best_action_pattern, validate_action_pattern,
  validate_action_patterns,
}
use shittim.DomainPolicy.ActionPatterns.Meaning.{
  IsActionPattern, NamesAction, validate_action_pattern_iff, valid-Decides,
}

pub validate_action_patterns_iff :
    (patterns : List Text)
    → (validate_action_patterns patterns ≡ ok tt) ↔ All IsActionPattern patterns
unfolding validate_action_patterns
validate_action_patterns_iff [] = (λ h. tt, λ h. refl)
validate_action_patterns_iff (pattern ∷ patterns) =
    let (rest_sound, rest_complete) = validate_action_patterns_iff patterns in
    (
      λ h.
          let (_, first, h1) = and_then-eq-ok (validate_action_pattern pattern) _ h in
          ((validate_action_pattern_iff pattern).0 first, rest_sound h1),
      λ a. rw ((validate_action_pattern_iff pattern).1 a.0) (rest_complete a.1),
    )

-- A candidate is never lost.
better_action-is_present :
    (candidate best : Option ActionScore)
    → (is_present (better_action candidate best) ≡ true)
      ↔ ((is_present best ≡ true) ⊎ (is_present candidate ≡ true))
unfolding better_action
better_action-is_present none best = (λ h. inl h, λ s. elim s [ inl h ↦ h | inr h ↦ cc ])
better_action-is_present (some candidate) none = (λ h. inr refl, λ s. refl)
better_action-is_present (some candidate) (some old) = (λ h. inl refl, λ s. ground arith)

best_action_from-valid :
    (value : Text) (patterns : List Text) (start : Option ActionScore)
    → All IsActionPattern patterns
    → (best : Option ActionScore) × (best_action_from patterns value start ≡ ok best)
      × ((is_present best ≡ true) ↔ ((is_present start ≡ true) ⊎ Some (NamesAction value) patterns))
unfolding best_action_from
best_action_from-valid value [] start a =
    (start, refl, (λ h. inl h, λ s. elim s [ inl h ↦ h | inr n ↦ absurd n ]))
best_action_from-valid value (pattern ∷ patterns) start a =
    let (candidate, h, (named, names)) = valid-Decides value pattern a.0 in
    let (best, rest, (out, back)) =
      best_action_from-valid value patterns (better_action candidate start) a.1 in
    let (kept, keeps) = better_action-is_present candidate start in
    (
      best,
      rw h rest,
      (
        λ p. elim (out p) [
          | inr later ↦ inr (inr later)
          | inl here ↦ elim (kept here) [
            | inl before ↦ inl before
            | inr now ↦ inr (inl (named now))
          ]
        ],
        λ s. elim s [
          | inl before ↦ back (inl (keeps (inl before)))
          | inr (inl now) ↦ back (inl (keeps (inr (names now))))
          | inr (inr later) ↦ back (inr later)
        ],
      ),
    )

-- What is not had by some is lacked by all.
All-not :
    (P : Text → Type 0) (patterns : List Text)
    → (Some P patterns → ⊥)
    → All (λ pattern. P pattern → ⊥) patterns
All-not P [] h = tt
All-not P (pattern ∷ patterns) h = (λ p. h (inl p), All-not P patterns (λ s. h (inr s)))

Some-All-not :
    (P : Text → Type 0) (patterns : List Text)
    → Some P patterns
    → All (λ pattern. P pattern → ⊥) patterns
    → ⊥
Some-All-not P [] s a = s
Some-All-not P (pattern ∷ patterns) (inl p) a = a.0 p
Some-All-not P (pattern ∷ patterns) (inr s) a = Some-All-not P patterns s a.1

-- Patterns that pass validation never fail the search for the best one, which finds a pattern
-- exactly when one of them names the action: it is the action itself, or it is a prefix with `.*`
-- behind it and the action is the prefix, a dot, and more.
pub best_action_pattern_lem :
    (patterns : List Text) (value : Text)
    → validate_action_patterns patterns ≡ ok tt
    → (best : Option ActionScore) × (best_action_pattern patterns value ≡ ok best)
      × ((is_present best ≡ true) ↔ Some (NamesAction value) patterns)
unfolding best_action_pattern
best_action_pattern_lem patterns value h =
    let valid = (validate_action_patterns_iff patterns).0 h in
    let (best, found, (out, back)) =
      best_action_from-valid value (dedup (sort_texts patterns)) none
        ((All-dedup_sort IsActionPattern patterns).1 valid) in
    (
      best,
      found,
      (
        λ p. elim (out p) [
          | inl nothing ↦ cc
          | inr named ↦ Some-dedup_sort (NamesAction value) patterns named
        ],
        λ s. elim (Bool-cases (is_present best)) [
          | inl present ↦ present
          | inr absent ↦
              let lacked : Some (NamesAction value) (dedup (sort_texts patterns)) → ⊥ =
                λ t. cc (back (inr t)) in
              absurd (
                Some-All-not (NamesAction value) patterns s (
                  (All-dedup_sort (λ pattern. NamesAction value pattern → ⊥) patterns).0
                    (All-not (NamesAction value) (dedup (sort_texts patterns)) lacked)))
        ],
      ),
    )
