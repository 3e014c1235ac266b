-- ===== src/SchemaTool/JsonMutation/Steps.antt =====
-- The steps of a traversal before and after a change below them
-- (rust/crates/schema-tool/src/json_pointer.rs, `classify_traversal_step` and `descend`).
use shittim.Base.{
  ℕ, ◌<◌, true, Bool-cases, Option, some, none, Option-cases, is_present, Result, ok, err, ◌≡◌, ◌⊎◌,
  inl, inr, refl, sym, ap, ◌∙◌, subst, arith, ltb, Text,
}
use shittim.Contracts.Json.{Json, Items, Members, null, boolean, number, string, array, object}
use shittim.SchemaTool.JsonDocument.{
  IndexError, parse_array_index_token, items_length, get_item, set_item, get_member, insert_member,
}
use shittim.SchemaTool.JsonDocument.Lookup.{get_item-set_item, get_member-insert_member}
use shittim.SchemaTool.JsonMutation.{
  TraversalStep, object_member, array_index, classify_traversal_step, index_step, descend, put_back,
  enter,
}

pub ltb-lt : (m n : ℕ) → m < n → ltb m n ≡ true
ltb-lt m n h = ground arith

pub some-injective : {A : Type 0} {x y : A} → some x ≡ some y → x ≡ y
some-injective h = cc

enter-some :
    (value : Json) (step : TraversalStep) (inner : Json)
    → descend value step ≡ some inner
    → enter value (some step) ≡ some (step, inner)
enter-some value step inner h = rw (enter, h)

enter-eq-some :
    (value : Json) (classified : Option TraversalStep) (step : TraversalStep) (inner : Json)
    → enter value classified ≡ some (step, inner)
    → (classified ≡ some step) × (descend value step ≡ some inner)
enter-eq-some value none step inner h = cc
enter-eq-some value (some other) step inner h = elim (Option-cases (descend value other)) [
  | inl missing ↦ cc (rw (enter, missing) at h)
  | inr (found, e) ↦
      let pair = some-injective (sym (enter-some value other found e) ∙ h) in
      let same = ap (λ p. p.0) pair in
      (ap some same, ap (descend value) (sym same) ∙ (e ∙ ap (λ p. some (p.1)) pair))
]

-- Entering an object and entering an array.
pub enter-object :
    (members : Members) (token : Text) (inner : Json)
    → get_member members token ≡ some inner
    → enter (object members) (classify_traversal_step (object members) token)
      ≡ some (object_member token, inner)
unfolding classify_traversal_step descend
enter-object members token inner h =
    let classified : classify_traversal_step (object members) token ≡ some (object_member token) =
      rw h in
    ap (enter (object members)) classified
    ∙ enter-some (object members) (object_member token) inner h

pub enter-array :
    (items : Items) (token : Text) (i : ℕ) (inner : Json)
    → parse_array_index_token token ≡ ok i
    → i < items_length items
    → get_item items i ≡ some inner
    → enter (array items) (classify_traversal_step (array items) token)
      ≡ some (array_index i, inner)
unfolding classify_traversal_step descend
enter-array items token i inner parsed below h =
    let classified : classify_traversal_step (array items) token ≡ some (array_index i) =
      rw (parsed, ltb-lt i (items_length items) below) in
    ap (enter (array items)) classified ∙ enter-some (array items) (array_index i) inner h

-- What is entered: an object's member, or an array's item.
abbrev EntersObject : Json → Text → TraversalStep → Json → Type 0
EntersObject value token step inner =
    (members : Members) × (value ≡ object members)
    × (step ≡ object_member token)
    × (get_member members token ≡ some inner)

abbrev EntersArray : Json → Text → TraversalStep → Json → Type 0
EntersArray value token step inner =
    (items : Items) × (i : ℕ) × (value ≡ array items)
    × (step ≡ array_index i)
    × (parse_array_index_token token ≡ ok i)
    × (i < items_length items)
    × (get_item items i ≡ some inner)

index_step-eq-some :
    (items : Items) (result : Result IndexError ℕ) (step : TraversalStep)
    → index_step items result ≡ some step
    → (i : ℕ) × (result ≡ ok i) × (step ≡ array_index i) × (i < items_length items)
index_step-eq-some items (err detail) step h = cc
index_step-eq-some items (ok i) step h = elim (Bool-cases (ltb i (items_length items))) [
  | inl inside ↦ (i, refl, sym (some-injective (rw inside at h)), ground arith)
  | inr outside ↦ cc (rw outside at h)
]

enter-cases :
    (value : Json) (token : Text) (step : TraversalStep) (inner : Json)
    → enter value (classify_traversal_step value token) ≡ some (step, inner)
    → EntersObject value token step inner ⊎ EntersArray value token step inner
unfolding classify_traversal_step descend
enter-cases (object members) token step inner h =
    let (classified, found) =
      enter-eq-some (object members) (classify_traversal_step (object members) token) step inner
        h in
    elim (Bool-cases (is_present (get_member members token))) [
      | inl there ↦
          let same = some-injective (rw there at classified) in
          inl (
            members,
            refl,
            sym same,
            subst (λ s. descend (object members) s ≡ some inner) (sym same) found,
          )
      | inr missing ↦ cc (rw missing at classified)
    ]
enter-cases (array items) token step inner h =
    let (classified, found) =
      enter-eq-some (array items) (classify_traversal_step (array items) token) step inner h in
    let (i, parsed, step_is, below) =
      index_step-eq-some items (parse_array_index_token token) step classified in
    inr (
      items,
      i,
      refl,
      step_is,
      parsed,
      below,
      subst (λ s. descend (array items) s ≡ some inner) step_is found,
    )
enter-cases null token step inner h = cc
enter-cases (boolean b) token step inner h = cc
enter-cases (number n) token step inner h = cc
enter-cases (string s) token step inner h = cc

-- What is put back at a step is what the same token enters.
pub enter-put_back :
    (value : Json) (token : Text) (step : TraversalStep) (inner changed : Json)
    → enter value (classify_traversal_step value token) ≡ some (step, inner)
    → enter
        (put_back value step changed)
        (classify_traversal_step (put_back value step changed) token)
      ≡ some (step, changed)
unfolding put_back
enter-put_back value token step inner changed h = elim (enter-cases value token step inner h) [
  | inl (members, is, step_is, found) ↦
      rw (is, step_is)
        (enter-object (insert_member members token changed) token changed
          (get_member-insert_member members token changed))
  | inr (items, i, is, step_is, parsed, below, found) ↦
      let (there, same) = get_item-set_item items i changed below in
      rw (is, step_is)
        (enter-array (set_item items i changed) token i changed parsed (omega arith) there)
]
