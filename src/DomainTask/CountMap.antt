-- ===== src/DomainTask/CountMap.antt =====
-- `BTreeMap<String, usize>` as the program uses it to count contents: a list of entries in key
-- order (rust/crates/domain-task/src/task.rs, `enforce_succeeded_coverage`).
pub mod Extensionality
use shittim.Base.{
  ℕ, zero, suc, ◌+◌, ◌<◌, Bool, true, false, ◌&&◌, List, [], ◌∷◌, Ordering, ◌≡◌, ◌≢◌, refl, sym,
  arith, ◌==◌, if◌then◌else◌, All, Text, text_eq, text_eq_iff, text_eq_refl, text_cmp,
  text_cmp-eq_iff, text_cmp-reverse, text_cmp-lt_trans, reverse_order,
}

abbrev pub CountMap : Type 0
CountMap = List (Text × ℕ)

-- `*map.entry(key).or_insert(0) += 1`
unfoldable pub increment : Text → CountMap → CountMap
increment k [] = (k, 1) ∷ []
increment k ((j, n) ∷ m) = elim (text_cmp k j) [
  | Ordering.lt ↦ (k, 1) ∷ (j, n) ∷ m
  | Ordering.eq ↦ (j, suc n) ∷ m
  | Ordering.gt ↦ (j, n) ∷ increment k m
]

-- `==` of two maps
unfoldable pub counts_eq : CountMap → CountMap → Bool
counts_eq [] [] = true
counts_eq [] (q ∷ m') = false
counts_eq (p ∷ m) [] = false
counts_eq ((k, n) ∷ m) ((j, n') ∷ m') = text_eq k j && (n == n' && counts_eq m m')

-- `map.get(key).copied().unwrap_or(0)`
unfoldable pub get : Text → CountMap → ℕ
get k [] = 0
get k ((j, n) ∷ m) = if text_eq k j then n else get k m

-- How often a text occurs in a list.
unfoldable pub occurrences : Text → List Text → ℕ
occurrences k [] = 0
occurrences k (x ∷ xs) = if text_eq k x then suc (occurrences k xs) else occurrences k xs

pub counts_eq→≡ : (m m' : CountMap) → counts_eq m m' ≡ true → m ≡ m'
unfolding counts_eq
counts_eq→≡ [] [] h = refl
counts_eq→≡ [] (q ∷ m') h = cc
counts_eq→≡ (p ∷ m) [] h = cc
counts_eq→≡ ((k, n) ∷ m) ((j, n') ∷ m') h = ground (arith, text_eq_iff k j, counts_eq→≡ m m')

pub counts_eq_refl : (m : CountMap) → counts_eq m m ≡ true
unfolding counts_eq
counts_eq_refl [] = refl
counts_eq_refl ((k, n) ∷ m) = ground (arith, text_eq_refl k, counts_eq_refl m)

-- Every key of the map lies above `k`.
abbrev pub IsAbove : Text → CountMap → Type 0
IsAbove k m = All (λ p. text_cmp k p.0 ≡ Ordering.lt) m

-- Keys rise and every count is positive.
abbrev pub IsOrdered : CountMap → Type 0
IsOrdered [] = Unit
IsOrdered ((k, n) ∷ m) = IsAbove k m × (0 < n) × IsOrdered m

IsAbove-trans : (k j : Text) (m : CountMap) → text_cmp k j ≡ Ordering.lt → IsAbove j m → IsAbove k m
IsAbove-trans k j [] h a = tt
IsAbove-trans k j ((i, n) ∷ m) h a = (text_cmp-lt_trans k j i h a.0, IsAbove-trans k j m h a.1)

get-IsAbove : (k : Text) (m : CountMap) → IsAbove k m → get k m ≡ 0
unfolding get
get-IsAbove k [] a = refl
get-IsAbove k ((j, n) ∷ m) a =
    ground (arith, text_eq_iff k j, text_cmp-eq_iff k j, get-IsAbove k m a.1)

-- Nothing is counted below the first key.
get-below : (k j : Text) (m : CountMap) → text_cmp k j ≡ Ordering.lt → IsAbove j m → get k m ≡ 0
get-below k j m h a = get-IsAbove k m (IsAbove-trans k j m h a)

IsAbove-increment :
    (i k : Text) (m : CountMap)
    → text_cmp i k ≡ Ordering.lt
    → IsAbove i m
    → IsAbove i (increment k m)
unfolding increment
IsAbove-increment i k [] h a = (h, tt)
IsAbove-increment i k ((j, n) ∷ m) h a = ground (arith, IsAbove-increment i k m h a.1)

pub increment-IsOrdered : (k : Text) (m : CountMap) → IsOrdered m → IsOrdered (increment k m)
unfolding increment
increment-IsOrdered k [] o = (tt, omega arith, tt)
increment-IsOrdered k ((j, n) ∷ m) o = ground (
  arith,
  IsAbove-trans k j m,
  text_cmp-reverse k j,
  IsAbove-increment j k m,
  increment-IsOrdered k m o.2,
)

-- Counting one more occurrence of `k` raises the count of `k` and of nothing else.
pub get-increment :
    (j k : Text) (m : CountMap)
    → IsOrdered m
    → get j (increment k m) ≡ (if text_eq j k then suc (get j m) else get j m)
unfolding get increment
get-increment j k [] o = refl
get-increment j k ((i, n) ∷ m) o = ground (
  arith,
  text_eq_iff j k,
  text_eq_iff j i,
  text_cmp-eq_iff k i,
  get-below k i m,
  get-increment j k m o.2,
)
