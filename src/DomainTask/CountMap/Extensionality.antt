-- ===== src/DomainTask/CountMap/Extensionality.antt =====
-- Ordered count maps with the same counts are the same map
-- (the comparison `required_counts != evidence_counts` of rust/crates/domain-task/src/task.rs).
use shittim.Base.{
  ℕ, ◌+◌, ◌↔◌, true, false, List, [], ◌∷◌, Ordering, ◌≡◌, refl, ap, arith, Text, text_eq,
  text_eq_iff, text_eq_refl, text_cmp, text_cmp-eq_iff, text_cmp-reverse,
}
use shittim.DomainTask.CountMap.{
  CountMap, get, IsAbove, IsOrdered, get-IsAbove, get-below, counts_eq, counts_eq→≡, counts_eq_refl,
  increment, increment-IsOrdered, get-increment, occurrences,
}

get-head : (k : Text) (n : ℕ) (m : CountMap) → get k ((k, n) ∷ m) ≡ n
unfolding get
get-head k n m = rw (text_eq_refl k)

get-tail : (k j : Text) (n : ℕ) (m : CountMap) → text_eq k j ≡ false → get k ((j, n) ∷ m) ≡ get k m
unfolding get
get-tail k j n m h = rw h

-- The first keys of two ordered maps with the same counts agree.
heads-eq :
    (k j : Text) (n n' : ℕ) (m m' : CountMap)
    → IsOrdered ((k, n) ∷ m)
    → IsOrdered ((j, n') ∷ m')
    → get k ((k, n) ∷ m) ≡ get k ((j, n') ∷ m')
    → get j ((k, n) ∷ m) ≡ get j ((j, n') ∷ m')
    → k ≡ j
unfolding get
heads-eq k j n n' m m' o o' at_k at_j = ground (
  arith,
  text_eq_refl k,
  text_eq_refl j,
  text_eq_iff k j,
  text_cmp-eq_iff k j,
  text_cmp-reverse k j,
  text_eq_iff j k,
  λ (q : text_cmp k j ≡ Ordering.lt). get-below k j m' q o'.0,
  λ (q : text_cmp j k ≡ Ordering.lt). get-below j k m q o.0,
)

tails-eq :
    (k j : Text) (n n' : ℕ) (m m' : CountMap)
    → k ≡ j
    → IsAbove k m
    → IsAbove j m'
    → ((x : Text) → get x ((k, n) ∷ m) ≡ get x ((j, n') ∷ m'))
    → (x : Text) → get x m ≡ get x m'
unfolding get
tails-eq k j n n' m m' p a a' h x = ground (
  arith,
  h x,
  text_eq_iff x k,
  text_eq_iff x j,
  get-IsAbove k m a,
  get-IsAbove j m' a',
  ap (λ t. get t m') p,
)

counts-eq :
    (k j : Text) (n n' : ℕ) (m m' : CountMap)
    → k ≡ j
    → get k ((k, n) ∷ m) ≡ get k ((j, n') ∷ m')
    → n ≡ n'
unfolding get
counts-eq k j n n' m m' p h = ground (arith, text_eq_refl k, text_eq_iff k j)

pub get-ext :
    (m m' : CountMap) → IsOrdered m → IsOrdered m' → ((k : Text) → get k m ≡ get k m') → m ≡ m'
unfolding get
get-ext [] [] o o' h = refl
get-ext [] ((j, n') ∷ m') o o' h = ground (arith, h j, text_eq_refl j)
get-ext ((k, n) ∷ m) [] o o' h = ground (arith, h k, text_eq_refl k)
get-ext ((k, n) ∷ m) ((j, n') ∷ m') o o' h =
    let p = heads-eq k j n n' m m' o o' (h k) (h j) in
    let q = counts-eq k j n n' m m' p (h k) in
    let r = get-ext m m' o.2 o'.2 (tails-eq k j n n' m m' p o.0 o'.0 h) in cc

-- Counts the texts one after another.
unfoldable pub count_texts : List Text → CountMap → CountMap
count_texts [] m = m
count_texts (x ∷ xs) m = count_texts xs (increment x m)

count_texts-IsOrdered : (xs : List Text) (m : CountMap) → IsOrdered m → IsOrdered (count_texts xs m)
unfolding count_texts
count_texts-IsOrdered [] m o = o
count_texts-IsOrdered (x ∷ xs) m o =
    count_texts-IsOrdered xs (increment x m) (increment-IsOrdered x m o)

get-count_texts :
    (k : Text) (xs : List Text) (m : CountMap)
    → IsOrdered m
    → get k (count_texts xs m) ≡ occurrences k xs + get k m
unfolding count_texts occurrences
get-count_texts k [] m o = omega arith
get-count_texts k (x ∷ xs) m o =
    ground (
      arith,
      get-increment k x m o,
      get-count_texts k xs (increment x m) (increment-IsOrdered x m o),
    )

-- Two lists count to equal maps exactly when every text occurs in both equally often.
pub counts_eq-count_texts :
    (xs ys : List Text)
    → (counts_eq (count_texts xs []) (count_texts ys []) ≡ true)
      ↔ ((k : Text) → occurrences k xs ≡ occurrences k ys)
unfolding get
counts_eq-count_texts xs ys = (
  λ h k. omega (
    arith,
    get-count_texts k xs [] tt,
    get-count_texts k ys [] tt,
    ap (get k) (counts_eq→≡ _ _ h),
  ),
  λ h.
      rw
        (get-ext (count_texts xs []) (count_texts ys []) (count_texts-IsOrdered xs [] tt)
          (count_texts-IsOrdered ys [] tt)
          λ k. omega (arith, get-count_texts k xs [] tt, get-count_texts k ys [] tt, h k))
        (counts_eq_refl _),
)
