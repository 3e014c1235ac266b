-- ===== src/DomainPolicy/Paths/Cancels.antt =====
-- Dot segments as RFC 3986 means them (rust/crates/domain-policy/src/uri.rs,
-- `remove_dot_segments`).
use shittim.Base.{
  false, Bool-cases, List, [], ◌∷◌, ◌++◌, ◌≡◌, ◌⊎◌, ◌↔◌, refl, sym, ap, ◌∙◌, subst, arith, All, ok,
  ok-injective, Text, codes, text_eq, text_eq_iff, inl, inr,
}
use mathlib.Core.List.{append-nil, append_assoc}
use shittim.DomainPolicy.Paths.{pop, remove_dots_into, remove_dot_segments}
use shittim.DomainPolicy.Paths.Dots.{IsNoDot, IsNoDot-pop, IsNoDot-push, IsNoDot-remove_dots_into}

-- One path becomes another by steps in any order: a `.` is left out wherever it stands, a `..` is
-- left out together with the ordinary segment before it, or alone at the beginning.
pub data Cancels (kept : List Text) : List Text → Type 0 where
  settled : Cancels kept kept
  current :
      {path : List Text} (before after : List Text)
      → path ≡ before ++ (codes "." ∷ after)
      → Cancels kept (before ++ after)
      → Cancels kept path
  parent :
      {path : List Text} (before : List Text) (segment : Text) (after : List Text)
      → IsNoDot segment
      → path ≡ before ++ (segment ∷ codes ".." ∷ after)
      → Cancels kept (before ++ after)
      → Cancels kept path
  root :
      {path : List Text} (after : List Text)
      → path ≡ codes ".." ∷ after
      → Cancels kept after
      → Cancels kept path

pop-push : (result : List Text) (segment : Text) → pop (result ++ (segment ∷ [])) ≡ result
unfolding pop
pop-push [] segment = refl
pop-push (x ∷ []) segment = refl
pop-push (x ∷ y ∷ result) segment = ap (◌∷◌ x) (pop-push (y ∷ result) segment)

-- A list is empty or has a last item.
last_cases :
    (result : List Text)
    → (result ≡ [])
      ⊎ ((before : List Text) × (segment : Text) × (result ≡ before ++ (segment ∷ [])))
last_cases [] = inl refl
last_cases (x ∷ result) = elim (last_cases result) [
  | inl none_left ↦ inr ([], x, ap (◌∷◌ x) none_left)
  | inr (before, segment, same) ↦ inr (x ∷ before, segment, ap (◌∷◌ x) same)
]

All-last :
    (before : List Text) (segment : Text) → All IsNoDot (before ++ (segment ∷ [])) → IsNoDot segment
All-last [] segment a = a.0
All-last (x ∷ before) segment a = All-last before segment a.1

All-before :
    (before : List Text) (segment : Text)
    → All IsNoDot (before ++ (segment ∷ []))
    → All IsNoDot before
All-before [] segment a = tt
All-before (x ∷ before) segment a = (a.0, All-before before segment a.1)

is_no_dot :
    (segment : Text)
    → text_eq segment (codes ".") ≡ false
    → text_eq segment (codes "..") ≡ false
    → IsNoDot segment
is_no_dot segment h k = (
  λ e. cc (rw ((text_eq_iff segment (codes ".")).1 e) at h),
  λ e. cc (rw ((text_eq_iff segment (codes "..")).1 e) at k),
)

-- The equations of the loop
remove_dots_into-dot :
    (result segments : List Text)
    → remove_dots_into result (codes "." ∷ segments) ≡ remove_dots_into result segments
unfolding remove_dots_into
remove_dots_into-dot result segments = refl

remove_dots_into-dots :
    (result segments : List Text)
    → remove_dots_into result (codes ".." ∷ segments) ≡ remove_dots_into (pop result) segments
unfolding remove_dots_into
remove_dots_into-dots result segments = refl

remove_dots_into-segment :
    (result : List Text) (segment : Text) (segments : List Text)
    → IsNoDot segment
    → remove_dots_into result (segment ∷ segments)
      ≡ remove_dots_into (result ++ (segment ∷ [])) segments
unfolding remove_dots_into
remove_dots_into-segment result segment segments n =
    let no_dot : text_eq segment (codes ".") ≡ false =
      ground (arith, text_eq_iff segment (codes "."), n.0) in
    let no_dots : text_eq segment (codes "..") ≡ false =
      ground (arith, text_eq_iff segment (codes ".."), n.1) in
    rw (no_dot, no_dots) refl

remove_dots_into-append :
    (before after result : List Text)
    → remove_dots_into result (before ++ after)
      ≡ remove_dots_into (remove_dots_into result before) after
unfolding remove_dots_into
remove_dots_into-append [] after result = refl
remove_dots_into-append (segment ∷ before) after result = remove_dots_into-append before after _

remove_dots_into-IsNoDot :
    (result segments : List Text)
    → All IsNoDot segments
    → remove_dots_into result segments ≡ result ++ segments
unfolding remove_dots_into
remove_dots_into-IsNoDot result [] a = rw append-nil
remove_dots_into-IsNoDot result (segment ∷ segments) a =
    remove_dots_into-segment result segment segments a.0
    ∙ remove_dots_into-IsNoDot (result ++ (segment ∷ [])) segments a.1
    ∙ append_assoc result (segment ∷ []) segments

-- No step changes what the loop makes of a path.
Cancels-remove_dots_into :
    {kept path : List Text}
    → Cancels kept path
    → remove_dots_into [] path ≡ remove_dots_into [] kept
unfolding pop
Cancels-remove_dots_into settled = refl
Cancels-remove_dots_into (current before after is_path rest) =
    ap (remove_dots_into []) is_path
    ∙ remove_dots_into-append before (codes "." ∷ after) []
    ∙ remove_dots_into-dot (remove_dots_into [] before) after
    ∙ sym (remove_dots_into-append before after [])
    ∙ Cancels-remove_dots_into rest
Cancels-remove_dots_into (parent before segment after n is_path rest) =
    ap (remove_dots_into []) is_path
    ∙ remove_dots_into-append before (segment ∷ codes ".." ∷ after) []
    ∙ remove_dots_into-segment (remove_dots_into [] before) segment (codes ".." ∷ after) n
    ∙ remove_dots_into-dots (remove_dots_into [] before ++ (segment ∷ [])) after
    ∙ ap (λ (result : List Text). remove_dots_into result after)
        (pop-push (remove_dots_into [] before) segment)
    ∙ sym (remove_dots_into-append before after [])
    ∙ Cancels-remove_dots_into rest
Cancels-remove_dots_into (root after is_path rest) =
    ap (remove_dots_into []) is_path
    ∙ remove_dots_into-dots [] after
    ∙ Cancels-remove_dots_into rest

-- A `..` behind the ordinary segments that are kept so far
cancel_dots :
    (result after : List Text)
    → All IsNoDot result
    → Cancels (remove_dots_into (pop result) after) (pop result ++ after)
    → Cancels (remove_dots_into (pop result) after) (result ++ (codes ".." ∷ after))
unfolding pop
cancel_dots result after a rest = elim (last_cases result) [
  | inl nothing ↦ root after (ap (λ (r : List Text). r ++ (codes ".." ∷ after)) nothing) (
      subst (λ (r : List Text). Cancels (remove_dots_into (pop result) after) (pop r ++ after))
        nothing rest)
  | inr (before, segment, same) ↦
      parent before segment after (All-last before segment (subst (All IsNoDot) same a))
        (ap (λ (r : List Text). r ++ (codes ".." ∷ after)) same
          ∙ append_assoc before (segment ∷ []) (codes ".." ∷ after))
        (subst (λ (r : List Text). Cancels (remove_dots_into (pop result) after) (r ++ after))
          (ap pop same ∙ pop-push before segment) rest)
]

Cancels-removed :
    (result segments : List Text)
    → All IsNoDot result
    → Cancels (remove_dots_into result segments) (result ++ segments)
unfolding remove_dots_into
Cancels-removed result [] a = rw append-nil settled
Cancels-removed result (segment ∷ segments) a = elim (Bool-cases (text_eq segment (codes "."))) [
  | inl dot ↦
      subst (λ s. Cancels (remove_dots_into result (s ∷ segments)) (result ++ (s ∷ segments)))
        (sym ((text_eq_iff segment (codes ".")).0 dot))
        (current result segments refl (Cancels-removed result segments a))
  | inr no_dot ↦ elim (Bool-cases (text_eq segment (codes ".."))) [
    | inl dots ↦
        subst (λ s. Cancels (remove_dots_into result (s ∷ segments)) (result ++ (s ∷ segments)))
          (sym ((text_eq_iff segment (codes "..")).0 dots))
          (cancel_dots result segments a
            (Cancels-removed (pop result) segments (IsNoDot-pop result a)))
    | inr no_dots ↦
        let n = is_no_dot segment no_dot no_dots in
        subst (λ kept. Cancels kept (result ++ (segment ∷ segments)))
          (sym (remove_dots_into-segment result segment segments n))
          (subst (Cancels (remove_dots_into (result ++ (segment ∷ [])) segments))
            (append_assoc result (segment ∷ []) segments)
            (Cancels-removed (result ++ (segment ∷ [])) segments (IsNoDot-push result segment a n)))
  ]
]

-- The removal of dot segments never fails. It gives a path exactly when that path has neither `.`
-- nor `..` and the segments become it by leaving out, in any order, a `.`, a `..` together with the
-- ordinary segment before it, and a `..` at the beginning.
pub remove_dot_segments_lem :
    (segments path : List Text)
    → ((kept : List Text) × (remove_dot_segments segments ≡ ok kept))
      × ((remove_dot_segments segments ≡ ok path) ↔ (Cancels path segments × All IsNoDot path))
unfolding remove_dot_segments
remove_dot_segments_lem segments path = (
  (remove_dots_into [] segments, refl),
  (
    λ h.
        subst (λ kept. Cancels kept segments × All IsNoDot kept) (ok-injective h)
          (Cancels-removed [] segments tt, IsNoDot-remove_dots_into [] segments tt),
    λ p. ap ok (Cancels-remove_dots_into p.0 ∙ remove_dots_into-IsNoDot [] path p.1),
  ),
)
