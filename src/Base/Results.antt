-- ===== src/Base/Results.antt =====
-- `Result<A, E>` of Rust, with `?` as bind.
use mathlib.Core.Path.{◌≡◌, refl, sym, ap, ◌∙◌}
use mathlib.Core.Bool.{Bool, true, false}
use mathlib.Core.Option.{Option, none, some}
use mathlib.Core.List.{List, [], ◌∷◌, ◌++◌}

pub data Result {ℓ} (E : Type 0) (A : Type ℓ) : Type ℓ where
  err : E → Result E A
  ok : A → Result E A

module _ {E : Type 0} where
  -- `Result::and_then`, which is what `?` does.
  abbrev pub and_then {ℓ κ} : {A : Type ℓ} {B : Type κ} → Result E A → (A → Result E B) → Result E B
  and_then (err failure) rest = err failure
  and_then (ok value) rest = rest value

  infixl 5 ◌>>=◌ ◌>>◌
  abbrev pub ◌>>=◌ {ℓ κ} : {A : Type ℓ} {B : Type κ} → Result E A → (A → Result E B) → Result E B
  ◌>>=◌ = and_then

  abbrev pub ◌>>◌ {ℓ} : {B : Type ℓ} → Result E (Unit {0}) → Result E B → Result E B
  check >> rest = and_then check (λ done. rest)

  -- `if b { return Err(e) }`
  abbrev pub reject_if : Bool → E → Result E (Unit {0})
  reject_if false failure = ok tt
  reject_if true failure = err failure

  -- `o.ok_or(e)`
  abbrev pub ok_or {ℓ} : {A : Type ℓ} → Option A → E → Result E A
  ok_or none failure = err failure
  ok_or (some value) failure = ok value

  -- A chain that succeeds has a first step that succeeds.
  pub and_then-eq-ok {ℓ κ} :
      {A : Type ℓ} {B : Type κ} (first : Result E A) (rest : A → Result E B) {result : B}
      → and_then first rest ≡ ok result
      → (value : A) × (first ≡ ok value) × (rest value ≡ ok result)
  and_then-eq-ok (err failure) rest chain = cc
  and_then-eq-ok (ok value) rest chain = (value, refl, chain)

pub ok_or-eq-ok {ℓ} :
    {E : Type 0} {A : Type ℓ} (option : Option A) (failure : E) {value : A}
    → ok_or option failure ≡ ok value
    → option ≡ some value
ok_or-eq-ok none failure h = cc
ok_or-eq-ok (some other) failure h = cc

pub ok-injective {ℓ} : {E : Type 0} {A : Type ℓ} {x y : A} → Path (Result E A) (ok x) (ok y) → x ≡ y
ok-injective h = cc

-- `r.map_err(f)`
abbrev pub map_err {ℓ} : {E F : Type 0} {A : Type ℓ} → (E → F) → Result E A → Result F A
map_err convert (err failure) = err (convert failure)
map_err convert (ok value) = ok value

-- `iter().map(f).collect::<Result<Vec<_>, _>>()`: the first failure, or all values.
unfoldable pub try_map {ℓ κ} :
    {E : Type 0} {A : Type ℓ} {B : Type κ} → (A → Result E B) → List A → Result E (List B)
try_map f [] = ok []
try_map f (x ∷ xs) = do y ← f x; ys ← try_map f xs; ok (y ∷ ys)

-- All values are the first one and those of the other items.
pub try_map-cons {ℓ κ} :
    {E : Type 0} {A : Type ℓ} {B : Type κ} (f : A → Result E B) (x : A) (xs : List A)
    (values : List B)
    → try_map f (x ∷ xs) ≡ ok values
    → (y : B) × (ys : List B) × (f x ≡ ok y) × (try_map f xs ≡ ok ys) × (values ≡ y ∷ ys)
unfolding try_map
try_map-cons f x xs values h =
    let (y, head, rest) = and_then-eq-ok (f x) (λ y. do ys ← try_map f xs; ok (y ∷ ys)) h in
    let (ys, tail, whole) = and_then-eq-ok (try_map f xs) (λ ys. ok (y ∷ ys)) rest in
    (y, ys, head, tail, sym (ok-injective whole))

pub try_map-append {ℓ κ} :
    {E : Type 0} {A : Type ℓ} {B : Type κ} (f : A → Result E B) (xs ys : List A)
    (first second : List B)
    → try_map f xs ≡ ok first
    → try_map f ys ≡ ok second
    → try_map f (xs ++ ys) ≡ ok (first ++ second)
unfolding try_map
try_map-append f [] ys first second h k = k ∙ ap (λ zs. ok (zs ++ second)) (ok-injective h)
try_map-append f (x ∷ xs) ys first second h k =
    let (y, zs, head, tail, whole) = try_map-cons f x xs first h in
    rw (head, try_map-append f xs ys zs second tail k) (ap (λ l. ok (l ++ second)) (sym whole))

-- What holds of the value, where there is one.
abbrev pub Ensures {ℓ} : {E : Type 0} {A : Type ℓ} → (A → Type 0) → Result E A → Type 0
Ensures P (err failure) = Unit
Ensures P (ok value) = P value

-- It holds of a chain, where it holds of what follows each first value.
pub and_then-Ensures {ℓ κ} :
    {E : Type 0} {A : Type ℓ} {B : Type κ} (P : B → Type 0) (first : Result E A)
    (rest : A → Result E B)
    → ((value : A) → Ensures P (rest value))
    → Ensures P (and_then first rest)
and_then-Ensures P (err failure) rest h = tt
and_then-Ensures P (ok value) rest h = h value

pub and_then-Ensures_also {ℓ κ} :
    {E : Type 0} {A : Type ℓ} {B : Type κ} (P : B → Type 0) (first : Result E A)
    (rest : A → Result E B) (Q : A → Type 0)
    → Ensures Q first
    → ((value : A) → Q value → Ensures P (rest value))
    → Ensures P (and_then first rest)
and_then-Ensures_also P (err failure) rest Q q h = tt
and_then-Ensures_also P (ok value) rest Q q h = h value q
