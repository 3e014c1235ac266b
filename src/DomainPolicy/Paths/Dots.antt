-- ===== src/DomainPolicy/Paths/Dots.antt =====
-- Paths without dot segments (rust/crates/domain-policy/src/uri.rs, `remove_dot_segments` and
-- `normalize_file_uri`).
use shittim.Base.{
  List, [], ◌∷◌, ◌++◌, ◌≢◌, arith, All, Text, codes, text_eq, text_eq_iff, inl, inr, Bool-cases,
}
use shittim.DomainPolicy.Paths.{pop, remove_dots_into, uppercase_drive}

-- Neither `.` nor `..`
abbrev pub IsNoDot : Text → Type 0
IsNoDot segment = (segment ≢ codes ".") × (segment ≢ codes "..")

pub IsNoDot-pop : (segments : List Text) → All IsNoDot segments → All IsNoDot (pop segments)
unfolding pop
IsNoDot-pop [] a = tt
IsNoDot-pop (x ∷ []) a = tt
IsNoDot-pop (x ∷ y ∷ xs) a = (a.0, IsNoDot-pop (y ∷ xs) a.1)

pub IsNoDot-push :
    (segments : List Text) (segment : Text)
    → All IsNoDot segments
    → IsNoDot segment
    → All IsNoDot (segments ++ (segment ∷ []))
IsNoDot-push [] segment a n = (n, tt)
IsNoDot-push (x ∷ xs) segment a n = (a.0, IsNoDot-push xs segment a.1 n)

pub IsNoDot-remove_dots_into :
    (result segments : List Text)
    → All IsNoDot result
    → All IsNoDot (remove_dots_into result segments)
unfolding remove_dots_into
IsNoDot-remove_dots_into result [] a = a
IsNoDot-remove_dots_into result (segment ∷ segments) a =
    elim (Bool-cases (text_eq segment (codes "."))) [
      | inl dot ↦ rw dot (IsNoDot-remove_dots_into result segments a)
      | inr no_dot ↦ elim (Bool-cases (text_eq segment (codes ".."))) [
        | inl dots ↦
            rw (no_dot, dots)
              (IsNoDot-remove_dots_into (pop result) segments (IsNoDot-pop result a))
        | inr no_dots ↦
            rw (no_dot, no_dots)
              (IsNoDot-remove_dots_into (result ++ (segment ∷ [])) segments (
                IsNoDot-push result segment a (
                  λ e. cc (rw ((text_eq_iff segment (codes ".")).1 e) at no_dot),
                  λ e. cc (rw ((text_eq_iff segment (codes "..")).1 e) at no_dots),
                )))
      ]
    ]

pub IsNoDot-uppercase_drive :
    (segments : List Text) → All IsNoDot segments → All IsNoDot (uppercase_drive segments)
unfolding uppercase_drive
IsNoDot-uppercase_drive [] a = a
IsNoDot-uppercase_drive ([] ∷ segments) a = a
IsNoDot-uppercase_drive ((c ∷ []) ∷ segments) a = a
IsNoDot-uppercase_drive ((c ∷ d ∷ []) ∷ segments) a = ground (arith, a.0.1)
IsNoDot-uppercase_drive ((c ∷ d ∷ e ∷ s) ∷ segments) a = a
