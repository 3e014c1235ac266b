-- ===== src/Base/Splits.antt =====
-- `split` for a character against `contains` and the joined parts.
use Prim.Native.Nat.{ℕ}
use mathlib.Core.Path.{◌≡◌, refl, sym, ap, ◌∙◌, subst}
use mathlib.Core.Logic.{inl, inr}
use mathlib.Core.Bool.{false}
use mathlib.Core.List.{List, [], ◌∷◌, ◌++◌}
use native.Mathlib.Omega.{arith}
use shittim.Base.Tests.{◌==◌, Bool-cases, ==_iff}
use shittim.Base.Lists.{All}
use shittim.Base.Strings.{Text}
use shittim.Base.TextSearch.{contains, split, extend_first}

-- Each part behind its separator.
unfoldable pub prefix_all : ℕ → List Text → Text
prefix_all c [] = []
prefix_all c (part ∷ parts) = c ∷ (part ++ prefix_all c parts)

pub split-same : (c : ℕ) (s : Text) → split (c ∷ s) c ≡ [] ∷ split s c
unfolding split
split-same c s = rw ((==_iff c c).1 refl)

split-other : (c d : ℕ) (s : Text) → (d == c) ≡ false → split (d ∷ s) c ≡ extend_first d (split s c)
unfolding split
split-other c d s h = rw h

pub split-prefix_all :
    (c : ℕ) (part : Text) (parts : List Text)
    → contains part c ≡ false
    → All (λ other. contains other c ≡ false) parts
    → split (part ++ prefix_all c parts) c ≡ part ∷ parts
unfolding split prefix_all
split-prefix_all c [] [] h all = refl
split-prefix_all c [] (next ∷ parts) h all =
    split-same c (next ++ prefix_all c parts)
    ∙ ap (◌∷◌ []) (split-prefix_all c next parts all.0 all.1)
split-prefix_all c (d ∷ part) parts h all =
    split-other c d (part ++ prefix_all c parts) (ground arith)
    ∙ ap (extend_first d) (split-prefix_all c part parts (ground arith) all)

prefix_all-extend_first :
    (c d : ℕ) (s : Text) (parts : List Text)
    → prefix_all c parts ≡ c ∷ s
    → prefix_all c (extend_first d parts) ≡ c ∷ d ∷ s
unfolding prefix_all
prefix_all-extend_first c d s [] h = cc
prefix_all-extend_first c d s (part ∷ parts) h = cc

pub prefix_all-split : (c : ℕ) (s : Text) → prefix_all c (split s c) ≡ c ∷ s
unfolding split prefix_all
prefix_all-split c [] = refl
prefix_all-split c (d ∷ s) = elim (Bool-cases (d == c)) [
  | inl same ↦ rw ((==_iff d c).0 same, split-same c s) (ap (◌∷◌ c) (prefix_all-split c s))
  | inr other ↦
      ap (prefix_all c) (split-other c d s other)
      ∙ prefix_all-extend_first c d s (split s c) (prefix_all-split c s)
]

contains-extend_first :
    (c d : ℕ) (parts : List Text)
    → (d == c) ≡ false
    → All (λ part. contains part c ≡ false) parts
    → All (λ part. contains part c ≡ false) (extend_first d parts)
contains-extend_first c d [] h all = (ground arith, tt)
contains-extend_first c d (part ∷ parts) h all = (ground (arith, all.0), all.1)

pub contains-split : (c : ℕ) (s : Text) → All (λ part. contains part c ≡ false) (split s c)
unfolding split
contains-split c [] = (refl, tt)
contains-split c (d ∷ s) = elim (Bool-cases (d == c)) [
  | inl same ↦
      subst (All (λ part. contains part c ≡ false))
        (sym (ap (λ e. split (e ∷ s) c) ((==_iff d c).0 same) ∙ split-same c s))
        (refl, contains-split c s)
  | inr other ↦
      subst (All (λ part. contains part c ≡ false)) (sym (split-other c d s other))
        (contains-extend_first c d (split s c) other (contains-split c s))
]
