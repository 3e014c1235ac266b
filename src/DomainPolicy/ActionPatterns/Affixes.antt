-- ===== src/DomainPolicy/ActionPatterns/Affixes.antt =====
-- Prefixes and suffixes of text, and the length of UTF-8.
use shittim.Base.{
  ℕ, ◌+◌, ◌≤◌, ◌<◌, true, false, some, [], ◌∷◌, ◌++◌, ◌≡◌, ◌≢◌, ◌↔◌, refl, ap, arith, Bool-cases,
  Option-cases, inl, inr, ==_iff, ◌==◌, length, length-append, Text, text_eq, text_eq_iff,
  text_eq_refl, strip_prefix, starts_with, utf8, utf8_char,
}
use shittim.DomainPolicy.ActionPatterns.{strip_suffix}

strip_suffix_sound : (s p rest : Text) → strip_suffix s p ≡ some rest → s ≡ rest ++ p
unfolding strip_suffix
strip_suffix_sound [] p rest h = elim (Bool-cases (text_eq [] p)) [
  | inl same ↦
      let e = (text_eq_iff [] p).0 same in
      let r : ◌≡◌ {A = Text} [] rest = ground arith in rw (← r) e
  | inr other ↦ cc (rw other at h)
]
strip_suffix_sound (c ∷ s) p rest h = elim (Bool-cases (text_eq (c ∷ s) p)) [
  | inl same ↦
      let e = (text_eq_iff (c ∷ s) p).0 same in
      let r : ◌≡◌ {A = Text} [] rest = ground arith in rw (← r) e
  | inr other ↦ elim (Option-cases (strip_suffix s p)) [
    | inl nothing ↦ cc (rw (other, nothing) at h)
    | inr (rest', found) ↦
        let r : c ∷ rest' ≡ rest = ground arith in
        rw (← r) (ap (λ (t : Text). c ∷ t) (strip_suffix_sound s p rest' found))
  ]
]

longer_ne : (c : ℕ) (rest p : Text) → text_eq (c ∷ (rest ++ p)) p ≡ false
longer_ne c rest p = elim (Bool-cases (text_eq (c ∷ (rest ++ p)) p)) [
  | inl same ↦
      absurd
        (omega (arith, ap length ((text_eq_iff (c ∷ (rest ++ p)) p).0 same), length-append rest p))
  | inr other ↦ other
]

strip_suffix-append : (rest p : Text) → strip_suffix (rest ++ p) p ≡ some rest
unfolding strip_suffix
strip_suffix-append [] [] = refl
strip_suffix-append [] (c ∷ p) = rw (text_eq_refl (c ∷ p))
strip_suffix-append (c ∷ rest) p = rw (longer_ne c rest p, strip_suffix-append rest p)

-- A text has a suffix exactly when it is a text with the suffix behind it.
pub strip_suffix_iff : (s p rest : Text) → (strip_suffix s p ≡ some rest) ↔ (s ≡ rest ++ p)
strip_suffix_iff s p rest = (strip_suffix_sound s p rest, λ e. rw e (strip_suffix-append rest p))

strip_prefix_sound : (s p rest : Text) → strip_prefix s p ≡ some rest → s ≡ p ++ rest
unfolding strip_prefix
strip_prefix_sound s [] rest h = ground arith
strip_prefix_sound [] (c ∷ p) rest h = cc
strip_prefix_sound (d ∷ s) (c ∷ p) rest h = elim (Bool-cases (d == c)) [
  | inl same ↦ ground (arith, strip_prefix_sound s p rest)
  | inr other ↦ cc (rw other at h)
]

strip_prefix-append : (p rest : Text) → strip_prefix (p ++ rest) p ≡ some rest
unfolding strip_prefix
strip_prefix-append [] [] = refl
strip_prefix-append [] (c ∷ rest) = refl
strip_prefix-append (c ∷ p) rest = rw ((==_iff c c).1 refl) (strip_prefix-append p rest)

pub starts_with_iff : (s p : Text) → (starts_with s p ≡ true) ↔ ((rest : Text) × (s ≡ p ++ rest))
unfolding starts_with
starts_with_iff s p = (
  λ h. elim (Option-cases (strip_prefix s p)) [
    | inl nothing ↦ cc (rw nothing at h)
    | inr (rest, found) ↦ (rest, strip_prefix_sound s p rest found)
  ],
  λ a. rw (a.1, strip_prefix-append p a.0),
)

length-utf8_char : (c : ℕ) → 1 ≤ length (utf8_char c)
length-utf8_char c = ground arith

pub length-utf8-append : (s t : Text) → length (utf8 (s ++ t)) ≡ length (utf8 s) + length (utf8 t)
unfolding utf8
length-utf8-append [] t = omega arith
length-utf8-append (c ∷ s) t = omega (
  arith,
  length-append (utf8_char c) (utf8 (s ++ t)),
  length-append (utf8_char c) (utf8 s),
  length-utf8-append s t,
)

pub length-utf8-pos : (s : Text) → s ≢ [] → 0 < length (utf8 s)
unfolding utf8
length-utf8-pos [] h = absurd (h refl)
length-utf8-pos (c ∷ s) h = omega (arith, length-append (utf8_char c) (utf8 s), length-utf8_char c)
