-- ===== src/Base/Occurrences.antt =====
-- Characters that a text lacks, and the parts that the searches find.
use Prim.Native.Nat.{ℕ}
use mathlib.Core.Path.{◌≡◌, refl, sym, ap, ◌∙◌, subst}
use mathlib.Core.Logic.{◌≢◌, ◌↔◌, inl, inr}
use mathlib.Core.Bool.{false}
use mathlib.Core.Option.{Option, none, some}
use mathlib.Core.List.{[], ◌∷◌, ◌++◌}
use native.Mathlib.Omega.{arith}
use shittim.Base.Tests.{◌==◌, Bool-cases, ==_iff}
use shittim.Base.Lists.{All}
use shittim.Base.Strings.{Text}
use shittim.Base.TextSearch.{contains, strip_prefix, split_once, split_at, put_first}

-- No character of the text is `c`.
abbrev pub Lacks : ℕ → Text → Type 0
Lacks c s = All (λ (d : ℕ). d ≢ c) s

pub contains_iff : (s : Text) (c : ℕ) → (contains s c ≡ false) ↔ Lacks c s
contains_iff [] c = (λ h. tt, λ h. refl)
contains_iff (d ∷ s) c = (
  λ h. (λ e. ground (arith, ==_iff d c), (contains_iff s c).0 (ground arith)),
  λ a. ground (arith, ==_iff d c, a.0, contains_iff s c),
)

some_pair :
    {a b c d : Text} → Path (Option (Text × Text)) (some (a, b)) (some (c, d)) → (a ≡ c) × (b ≡ d)
some_pair h = (cc, cc)

put_first-some :
    (c : ℕ) (found : Option (Text × Text)) (head tail : Text)
    → put_first c found ≡ some (head, tail)
    → (rest : Text) × (found ≡ some (rest, tail)) × (head ≡ c ∷ rest)
put_first-some c none head tail h = cc
put_first-some c (some (rest, other)) head tail h = (rest, cc, cc)

put_first-none : (c : ℕ) (found : Option (Text × Text)) → put_first c found ≡ none → found ≡ none
put_first-none c none h = refl
put_first-none c (some (rest, other)) h = cc

pub split_once-none : (s : Text) (c : ℕ) → split_once s c ≡ none → Lacks c s
unfolding split_once
split_once-none [] c h = tt
split_once-none (d ∷ s) c h = elim (Bool-cases (d == c)) [
  | inl same ↦ cc (rw same at h)
  | inr other ↦ (
    λ e. ground (arith, ==_iff d c),
    split_once-none s c (put_first-none d (split_once s c) (rw other at h)),
  )
]

-- The first `c` stands between the two parts.
pub split_once-some :
    (s : Text) (c : ℕ) (head tail : Text)
    → split_once s c ≡ some (head, tail)
    → (s ≡ head ++ (c ∷ tail)) × Lacks c head
unfolding split_once
split_once-some [] c head tail h = cc
split_once-some (d ∷ s) c head tail h = elim (Bool-cases (d == c)) [
  | inl same ↦
      let found = some_pair (rw same at h) in
      let is_c : d ≡ c = (==_iff d c).0 same in
      subst (λ (start : Text). (d ∷ s ≡ start ++ (c ∷ tail)) × Lacks c start) found.0 (cc, tt)
  | inr other ↦
      let (rest, found, is_head) = put_first-some d (split_once s c) head tail (rw other at h) in
      let (parts, lacks) = split_once-some s c rest tail found in
      subst (λ (start : Text). (d ∷ s ≡ start ++ (c ∷ tail)) × Lacks c start) (sym is_head)
        (ap (◌∷◌ d) parts, (λ e. ground (arith, ==_iff d c), lacks))
]

pub strip_prefix-some : (s p rest : Text) → strip_prefix s p ≡ some rest → s ≡ p ++ rest
unfolding strip_prefix
strip_prefix-some s [] rest h = cc
strip_prefix-some [] (c ∷ p) rest h = cc
strip_prefix-some (d ∷ s) (c ∷ p) rest h = ground (arith, strip_prefix-some s p rest, ==_iff d c)

-- The text is found at the beginning.
found_first :
    (s p rest head tail : Text)
    → strip_prefix s p ≡ some rest
    → Path (Option (Text × Text)) (some ([], rest)) (some (head, tail))
    → s ≡ head ++ (p ++ tail)
found_first s p rest head tail e h =
    let parts = some_pair h in
    strip_prefix-some s p rest e
    ∙ ap (λ (t : Text). p ++ t) parts.1
    ∙ ap (λ (start : Text). start ++ (p ++ tail)) parts.0

found_empty :
    (p head tail : Text) (found : Option Text)
    → strip_prefix [] p ≡ found
    → split_at [] p ≡ some (head, tail)
    → [] ≡ head ++ (p ++ tail)
unfolding split_at
found_empty p head tail none e h = cc (rw (split_at, e) at h)
found_empty p head tail (some rest) e h = found_first [] p rest head tail e (rw (split_at, e) at h)

found_at :
    (c : ℕ) (s p head tail : Text) (found : Option Text)
    → strip_prefix (c ∷ s) p ≡ found
    → split_at (c ∷ s) p ≡ some (head, tail)
    → ((start : Text) → split_at s p ≡ some (start, tail) → s ≡ start ++ (p ++ tail))
    → c ∷ s ≡ head ++ (p ++ tail)
unfolding split_at
found_at c s p head tail none e h later =
    let (rest, found, is_head) =
      put_first-some c (split_at s p) head tail (rw (split_at, e) at h) in
    ap (◌∷◌ c) (later rest found) ∙ ap (λ (start : Text). start ++ (p ++ tail)) (sym is_head)
found_at c s p head tail (some rest) e h later =
    found_first (c ∷ s) p rest head tail e (rw (split_at, e) at h)

pub split_at-some :
    (s p head tail : Text) → split_at s p ≡ some (head, tail) → s ≡ head ++ (p ++ tail)
split_at-some [] p head tail h = found_empty p head tail (strip_prefix [] p) refl h
split_at-some (c ∷ s) p head tail h =
    found_at c s p head tail (strip_prefix (c ∷ s) p) refl h
      (λ start found. split_at-some s p start tail found)
