-- ===== src/DomainPolicy/Uri/Best/Sorting.antt =====
-- Sorting patterns and removing equal neighbours keeps what all or some of them have
-- (rust/crates/domain-policy/src/uri.rs, `best_uri_pattern`).
use shittim.Base.{
  List, [], ◌∷◌, Ordering, ◌⊎◌, ◌↔◌, inl, inr, sym, Bool-cases, All, Some, Text, text_eq,
  text_eq_iff, text_cmp, subst,
}
use shittim.DomainPolicy.Uri.Best.{insert_text, sort_texts, dedup}

module _ (P : Text → Type 0) where
  All-insert_text :
      (pattern : Text) (patterns : List Text)
      → All P (insert_text pattern patterns) ↔ (P pattern × All P patterns)
  unfolding insert_text
  All-insert_text pattern [] = (λ a. a, λ a. a)
  All-insert_text pattern (other ∷ patterns) =
      let (out, back) = All-insert_text pattern patterns in
      elim (text_cmp pattern other)
        as (λ (o : Ordering).
          All P (elim o [
            | Ordering.gt ↦ other ∷ insert_text pattern patterns
            | _ ↦ pattern ∷ other ∷ patterns
          ])
          ↔ (P pattern × All P (other ∷ patterns))) [
            | Ordering.gt ↦
                (λ a. let r = out a.1 in (r.0, (a.0, r.1)), λ a. (a.1.0, back (a.0, a.1.1)))
            | Ordering.lt ↦ (λ a. a, λ a. a)
            | Ordering.eq ↦ (λ a. a, λ a. a)
          ]

  All-sort_texts : (patterns : List Text) → All P (sort_texts patterns) ↔ All P patterns
  unfolding sort_texts
  All-sort_texts [] = (λ a. a, λ a. a)
  All-sort_texts (pattern ∷ patterns) =
      let (out, back) = All-insert_text pattern (sort_texts patterns) in
      let (rest_out, rest_back) = All-sort_texts patterns in
      (λ a. let r = out a in (r.0, rest_out r.1), λ a. back (a.0, rest_back a.1))

  All-dedup : (patterns : List Text) → All P (dedup patterns) ↔ All P patterns
  unfolding dedup
  All-dedup [] = (λ a. a, λ a. a)
  All-dedup (pattern ∷ []) = (λ a. a, λ a. a)
  All-dedup (pattern ∷ other ∷ patterns) =
      let (out, back) = All-dedup (other ∷ patterns) in
      elim (Bool-cases (text_eq pattern other)) [
        | inl same ↦
            let e = (text_eq_iff pattern other).0 same in
            rw same (λ a. let r = out a in (subst P (sym e) r.0, r), λ a. back a.1)
        | inr distinct ↦ rw distinct (λ a. (a.0, out a.1), λ a. (a.0, back a.1))
      ]

  pub All-dedup_sort : (patterns : List Text) → All P (dedup (sort_texts patterns)) ↔ All P patterns
  All-dedup_sort patterns = (
    λ a. (All-sort_texts patterns).0 ((All-dedup (sort_texts patterns)).0 a),
    λ a. (All-dedup (sort_texts patterns)).1 ((All-sort_texts patterns).1 a),
  )

  Some-insert_text :
      (pattern : Text) (patterns : List Text)
      → Some P (insert_text pattern patterns)
      → P pattern ⊎ Some P patterns
  unfolding insert_text
  Some-insert_text pattern [] = λ a. a
  Some-insert_text pattern (other ∷ patterns) =
      let out = Some-insert_text pattern patterns in
      elim (text_cmp pattern other)
        as (λ (o : Ordering).
          Some P (elim o [
            | Ordering.gt ↦ other ∷ insert_text pattern patterns
            | _ ↦ pattern ∷ other ∷ patterns
          ])
          → P pattern ⊎ Some P (other ∷ patterns)) [
            | Ordering.gt ↦ λ a. elim a [
              | inl here ↦ inr (inl here)
              | inr later ↦ elim (out later) [ inl first ↦ inl first | inr more ↦ inr (inr more) ]
            ]
            | Ordering.lt ↦ λ a. a
            | Ordering.eq ↦ λ a. a
          ]

  Some-sort_texts : (patterns : List Text) → Some P (sort_texts patterns) → Some P patterns
  unfolding sort_texts
  Some-sort_texts [] a = a
  Some-sort_texts (pattern ∷ patterns) a = elim (Some-insert_text pattern (sort_texts patterns) a) [
    | inl here ↦ inl here
    | inr later ↦ inr (Some-sort_texts patterns later)
  ]

  Some-dedup : (patterns : List Text) → Some P (dedup patterns) → Some P patterns
  unfolding dedup
  Some-dedup [] a = a
  Some-dedup (pattern ∷ []) a = a
  Some-dedup (pattern ∷ other ∷ patterns) a =
      let later = Some-dedup (other ∷ patterns) in
      elim (Bool-cases (text_eq pattern other)) [
        | inl same ↦ inr (later (rw same at a))
        | inr distinct ↦ elim (rw distinct at a) [
          | inl here ↦ inl here
          | inr more ↦ inr (later more)
        ]
      ]

  pub Some-dedup_sort :
      (patterns : List Text) → Some P (dedup (sort_texts patterns)) → Some P patterns
  Some-dedup_sort patterns a = Some-sort_texts patterns (Some-dedup (sort_texts patterns) a)
