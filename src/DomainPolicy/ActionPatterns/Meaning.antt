-- ===== src/DomainPolicy/ActionPatterns/Meaning.antt =====
-- What action patterns mean (rust/crates/domain-policy/src/matcher.rs).
use mathlib.Core.List.{append_assoc}
use shittim.Base.{
  ℕ, ◌+◌, true, false, ◌||◌, Option, none, some, [], ◌∷◌, ◌++◌, ◌≡◌, ◌≢◌, ◌⊎◌, inl, inr, ◌↔◌, refl,
  sym, ap, ◌∙◌, arith, Bool-cases, Option-cases, leb, is_empty, length, ok, reject_if,
  and_then-eq-ok, Text, codes, text_eq, text_eq_iff, contains, starts_with, is_present, utf8, pos,
}
use shittim.DomainPolicy.Error.{invalid_action_pattern}
use shittim.DomainPolicy.ActionPatterns.{
  ActionScore, strip_suffix, prefix_candidate, candidate_of, validate_action_pattern,
}
use shittim.DomainPolicy.ActionPatterns.Affixes.{
  strip_suffix_iff, starts_with_iff, length-utf8-append, length-utf8-pos,
}

abbrev dot_star : Text
dot_star = codes ".*"

-- The pattern is a literal prefix with `.*` behind it.
pub record IsPrefixPattern (pattern prefix : Text) : Type 0 where
  pub is_prefix : pattern ≡ prefix ++ codes ".*"
  pub not_empty : prefix ≢ []
  pub no_star : contains prefix b'*' ≡ false

-- The pattern is a literal.
pub record IsExactPattern (pattern : Text) : Type 0 where
  pub some_text : pattern ≢ []
  pub no_glob : contains pattern b'*' ≡ false
  pub no_bracket : contains pattern b'[' ≡ false
  pub no_parenthesis : contains pattern b'(' ≡ false

abbrev pub IsActionPattern : Text → Type 0
IsActionPattern pattern =
    ((prefix : Text) × IsPrefixPattern pattern prefix) ⊎ IsExactPattern pattern

-- The value is the pattern itself, or lies below its prefix: the prefix, a dot, and more.
abbrev pub NamesAction : Text → Text → Type 0
NamesAction value pattern =
    ((prefix : Text) × (rest : Text) × IsPrefixPattern pattern prefix
      × (value ≡ prefix ++ (codes "." ++ rest))
      × (rest ≢ []))
    ⊎ ((pattern ≡ value) × (contains pattern b'*' ≡ false))

contains-append : (s t : Text) (c : ℕ) → contains (s ++ t) c ≡ (contains s c || contains t c)
contains-append [] t c = refl
contains-append (d ∷ s) t c = ground (arith, contains-append s t c)

-- A text with no `*` does not end in `.*`.
no_suffix : (pattern : Text) → contains pattern b'*' ≡ false → strip_suffix pattern dot_star ≡ none
no_suffix pattern h = elim (Option-cases (strip_suffix pattern dot_star)) [
  | inl nothing ↦ nothing
  | inr (prefix, found) ↦
      let e = (strip_suffix_iff pattern dot_star prefix).0 found in
      absurd
        (ground (arith, ap (λ (t : Text). contains t b'*') e, contains-append prefix dot_star b'*'))
]

is_empty-ne : (s : Text) → s ≢ [] → is_empty s ≡ false
is_empty-ne [] h = absurd (h refl)
is_empty-ne (c ∷ s) h = refl

ne-is_empty : (s : Text) → is_empty s ≡ false → s ≢ []
ne-is_empty [] h e = cc
ne-is_empty (c ∷ s) h e = cc

prefix-ne : (pattern prefix : Text) → pattern ≡ prefix ++ dot_star → is_empty pattern ≡ false
prefix-ne pattern [] e = rw e
prefix-ne pattern (c ∷ prefix) e = rw e

pub validate_action_pattern_iff :
    (pattern : Text) → (validate_action_pattern pattern ≡ ok tt) ↔ IsActionPattern pattern
unfolding validate_action_pattern
validate_action_pattern_iff pattern = (
  λ h.
      let (_, given, h1) =
        and_then-eq-ok (reject_if (is_empty pattern) invalid_action_pattern) _ h in
      elim (Option-cases (strip_suffix pattern dot_star)) [
        | inl nothing ↦
            let checked = rw nothing at h1 in
            inr (record {
              some_text = ne-is_empty pattern (ground arith);
              no_glob = ground arith;
              no_bracket = ground arith;
              no_parenthesis = ground arith;
            })
        | inr (prefix, found) ↦
            let checked = rw found at h1 in
            inl (
              prefix,
              record {
                is_prefix = (strip_suffix_iff pattern dot_star prefix).0 found;
                not_empty = ne-is_empty prefix (ground arith);
                no_star = ground arith;
              },
            )
      ],
  λ p. elim p [
    | inl (prefix, q) ↦
        let found = (strip_suffix_iff pattern dot_star prefix).1 q.is_prefix in
        rw (prefix-ne pattern prefix q.is_prefix, found, is_empty-ne prefix q.not_empty, q.no_star)
    | inr q ↦ rw (
      is_empty-ne pattern q.some_text,
      no_suffix pattern q.no_glob,
      q.no_glob,
      q.no_bracket,
      q.no_parenthesis,
    )
  ],
)

length-below :
    (prefix rest : Text)
    → length (utf8 (prefix ++ (codes "." ++ rest))) ≡ length (utf8 prefix) + 1 + length (utf8 rest)
unfolding utf8
length-below prefix rest = omega (arith, length-utf8-append prefix (codes "." ++ rest))

nothing_below :
    (value prefix rest : Text)
    → value ≡ prefix ++ (codes "." ++ rest)
    → leb (length (utf8 value)) (length (utf8 prefix) + 1) ≡ false
    → rest ≢ []
unfolding utf8
nothing_below value prefix [] e longer r =
    absurd (ground (arith, ap (λ (t : Text). length (utf8 t)) e, length-below prefix []))
nothing_below value prefix (c ∷ rest) e longer r = cc

longer_below :
    (value prefix rest : Text)
    → value ≡ prefix ++ (codes "." ++ rest)
    → rest ≢ []
    → leb (length (utf8 value)) (length (utf8 prefix) + 1) ≡ false
longer_below value prefix rest e more = ground (
  arith,
  ap (λ (t : Text). length (utf8 t)) e,
  length-below prefix rest,
  length-utf8-pos rest more,
)

prefix_candidate_sound :
    (pattern value prefix : Text)
    → is_present (prefix_candidate pattern value prefix) ≡ true
    → (prefix ≢ [])
      × (contains prefix b'*' ≡ false)
      × ((rest : Text) × (value ≡ prefix ++ (codes "." ++ rest)) × (rest ≢ []))
unfolding prefix_candidate
prefix_candidate_sound pattern value prefix h =
    let starts : starts_with value (prefix ++ codes ".") ≡ true = ground arith in
    let longer : leb (length (utf8 value)) (length (utf8 prefix) + 1) ≡ false = ground arith in
    let (rest, split) = (starts_with_iff value (prefix ++ codes ".")).0 starts in
    let below : value ≡ prefix ++ (codes "." ++ rest) =
      split ∙ append_assoc prefix (codes ".") rest in
    (
      ne-is_empty prefix (ground arith),
      ground arith,
      (rest, below, nothing_below value prefix rest below longer),
    )

prefix_candidate_complete :
    (pattern value prefix rest : Text)
    → prefix ≢ []
    → contains prefix b'*' ≡ false
    → value ≡ prefix ++ (codes "." ++ rest)
    → rest ≢ []
    → is_present (prefix_candidate pattern value prefix) ≡ true
unfolding prefix_candidate
prefix_candidate_complete pattern value prefix rest n star e more =
    let starts =
      (starts_with_iff value (prefix ++ codes ".")).1
        (rest, e ∙ sym (append_assoc prefix (codes ".") rest)) in
    rw (is_empty-ne prefix n, star, starts, longer_below value prefix rest e more)

-- A pattern that is valid gets a candidate, or none, and never an error.
abbrev pub Decides : Text → Text → Type 0
Decides value pattern =
    (candidate : Option ActionScore) × (candidate_of pattern value ≡ ok candidate)
    × ((is_present candidate ≡ true) ↔ NamesAction value pattern)

prefix_pattern-Decides :
    (value pattern prefix : Text) → IsPrefixPattern pattern prefix → Decides value pattern
unfolding candidate_of
prefix_pattern-Decides value pattern prefix q =
    let found = (strip_suffix_iff pattern dot_star prefix).1 q.is_prefix in
    (
      prefix_candidate pattern value prefix,
      rw (found, candidate_of),
      (
        λ h.
            let (n, star, (rest, below, more)) = prefix_candidate_sound pattern value prefix h in
            inl (prefix, rest, q, below, more),
        λ m. elim m [
          | inl (prefix', rest, q', below, more) ↦
              let found' = (strip_suffix_iff pattern dot_star prefix').1 q'.is_prefix in
              let same : prefix' ≡ prefix = cc in
              prefix_candidate_complete pattern value prefix rest q.not_empty q.no_star
                (below ∙ ap (λ (t : Text). t ++ (codes "." ++ rest)) same) more
          | inr (same, no_glob) ↦ cc (no_suffix pattern no_glob)
        ],
      ),
    )

not_named :
    (value pattern : Text)
    → contains pattern b'*' ≡ false
    → text_eq pattern value ≡ false
    → NamesAction value pattern
    → ⊥
not_named value pattern no_glob other (inl (prefix, rest, q, below, more)) =
    cc (no_suffix pattern no_glob, (strip_suffix_iff pattern dot_star prefix).1 q.is_prefix)
not_named value pattern no_glob other (inr (same, _)) = cc ((text_eq_iff pattern value).1 same)

exact_pattern-Decides : (value pattern : Text) → IsExactPattern pattern → Decides value pattern
unfolding candidate_of
exact_pattern-Decides value pattern q =
    let nothing = no_suffix pattern q.no_glob in
    elim (Bool-cases (text_eq pattern value)) [
      | inl same ↦ (
        some (pos 1, length pattern, pattern),
        rw (nothing, candidate_of, q.no_glob, same),
        (λ h. inr ((text_eq_iff pattern value).0 same, q.no_glob), λ m. refl),
      )
      | inr other ↦ (
        none,
        rw (nothing, candidate_of, q.no_glob, other),
        (λ h. cc, λ m. absurd (not_named value pattern q.no_glob other m)),
      )
    ]

pub valid-Decides : (value pattern : Text) → IsActionPattern pattern → Decides value pattern
valid-Decides value pattern (inl (prefix, q)) = prefix_pattern-Decides value pattern prefix q
valid-Decides value pattern (inr q) = exact_pattern-Decides value pattern q
