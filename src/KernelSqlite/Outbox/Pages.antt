-- ===== src/KernelSqlite/Outbox/Pages.antt =====
-- Pages of rows, as the SQL statements of the Outbox select them
-- (rust/crates/kernel-sqlite/src/outbox.rs, `read_after`).
use shittim.Base.{
  ℕ, zero, suc, ◌+◌, ◌≤◌, ◌<◌, Bool-cases, ltb, some, List, [], ◌∷◌, ◌++◌, ◌≡◌, refl, sym, ap, ◌∙◌,
  arith, ◌⊎◌, inl, inr,
}
use shittim.KernelSqlite.OutboxTables.{OutboxRow, rows_where, take_rows, is_after}
use shittim.KernelSqlite.Outbox.Numbering.{IsAscending}
use shittim.KernelSqlite.Outbox.Positions.{last_of}

IsAscending-lower :
    (lower above : ℕ) (rows : List OutboxRow) (upper : ℕ)
    → lower ≤ above
    → IsAscending above rows upper
    → IsAscending lower rows upper
IsAscending-lower lower above [] upper h all = omega arith
IsAscending-lower lower above (row ∷ rows) upper h all = (omega (arith, all.0), all.1)

pub rows_where-IsAscending :
    (c lower : ℕ) (rows : List OutboxRow) (upper : ℕ)
    → IsAscending lower rows upper
    → IsAscending lower (rows_where (is_after c) rows) upper
unfolding rows_where
rows_where-IsAscending c lower [] upper all = all
rows_where-IsAscending c lower (row ∷ rows) upper all =
    elim (Bool-cases (ltb c row.outbox_position)) [
      | inl after ↦ rw after (all.0, rows_where-IsAscending c row.outbox_position rows upper all.1)
      | inr before ↦ rw before (
          rows_where-IsAscending c lower rows upper
            (IsAscending-lower lower row.outbox_position rows upper (omega (arith, all.0)) all.1))
    ]

rows_where-all :
    (c lower : ℕ) (rows : List OutboxRow) (upper : ℕ)
    → c ≤ lower
    → IsAscending lower rows upper
    → rows_where (is_after c) rows ≡ rows
unfolding rows_where
rows_where-all c lower [] upper h all = refl
rows_where-all c lower (row ∷ rows) upper h all =
    ground
      (arith, all.0, rows_where-all c row.outbox_position rows upper (omega (arith, all.0)) all.1)

last_of-cons :
    (row : OutboxRow) (rows : List OutboxRow) (p : ℕ)
    → last_of (row ∷ rows) ≡ some p
    → ((rows ≡ []) × (row.outbox_position ≡ p)) ⊎ (last_of rows ≡ some p)
unfolding last_of
last_of-cons row [] p h = inl (refl, cc)
last_of-cons row (more ∷ rows) p h = inr h

last_of-above :
    (lower n : ℕ) (rows : List OutboxRow) (upper p : ℕ)
    → IsAscending lower rows upper
    → last_of (take_rows n rows) ≡ some p
    → lower < p
unfolding last_of take_rows
last_of-above lower zero rows upper p all h = cc
last_of-above lower (suc n) [] upper p all h = cc
last_of-above lower (suc n) (row ∷ rows) upper p all h =
    elim (last_of-cons row (take_rows n rows) p h) [
      | inl single ↦ omega (arith, all.0, single.1)
      | inr deeper ↦
          omega (arith, all.0, last_of-above row.outbox_position n rows upper p all.1 deeper)
    ]

IsAscending-bounds :
    (lower : ℕ) (rows : List OutboxRow) (upper : ℕ) → IsAscending lower rows upper → lower ≤ upper
IsAscending-bounds lower [] upper all = all
IsAscending-bounds lower (row ∷ rows) upper all =
    omega (arith, all.0, IsAscending-bounds row.outbox_position rows upper all.1)

pub last_of-below :
    (lower n : ℕ) (rows : List OutboxRow) (upper p : ℕ)
    → IsAscending lower rows upper
    → last_of (take_rows n rows) ≡ some p
    → p ≤ upper
unfolding last_of take_rows
last_of-below lower zero rows upper p all h = cc
last_of-below lower (suc n) [] upper p all h = cc
last_of-below lower (suc n) (row ∷ rows) upper p all h =
    elim (last_of-cons row (take_rows n rows) p h) [
      | inl single ↦
          omega (arith, single.1, IsAscending-bounds row.outbox_position rows upper all.1)
      | inr deeper ↦ last_of-below row.outbox_position n rows upper p all.1 deeper
    ]

take_rows-suc :
    (n b : ℕ) (row : OutboxRow) (rows : List OutboxRow)
    → take_rows (suc n + b) (row ∷ rows) ≡ row ∷ take_rows (n + b) rows
unfolding take_rows
take_rows-suc n b row rows = ap (λ (k : ℕ). take_rows k (row ∷ rows)) (plus-suc n b)
  where
    plus-suc : (m k : ℕ) → suc m + k ≡ suc (m + k)
    plus-suc m k = omega arith

take_rows-none :
    (n b : ℕ) (rows : List OutboxRow)
    → take_rows n rows ≡ []
    → take_rows (n + b) rows ≡ take_rows b rows
unfolding take_rows
take_rows-none zero b rows h = ap (λ (k : ℕ). take_rows k rows) (omega arith)
take_rows-none (suc n) zero [] h = none_taken (suc n + 0)
  where
    none_taken : (k : ℕ) → take_rows k [] ≡ []
    none_taken zero = refl
    none_taken (suc k) = refl
take_rows-none (suc n) (suc b) [] h = ap (λ (k : ℕ). take_rows k []) (shifted n b)
  where
    shifted : (m k : ℕ) → suc m + suc k ≡ suc (m + suc k)
    shifted m k = omega arith
take_rows-none (suc n) b (row ∷ rows) h = cc

rows_where-skip :
    (p : ℕ) (row : OutboxRow) (rows : List OutboxRow)
    → row.outbox_position ≤ p
    → rows_where (is_after p) (row ∷ rows) ≡ rows_where (is_after p) rows
unfolding rows_where
rows_where-skip p row rows h = ground arith

-- A page and the page behind its last row make up one longer page.
take_rows-page :
    (lower a b : ℕ) (rows : List OutboxRow) (upper p : ℕ)
    → IsAscending lower rows upper
    → last_of (take_rows a rows) ≡ some p
    → take_rows (a + b) rows ≡ take_rows a rows ++ take_rows b (rows_where (is_after p) rows)
unfolding last_of take_rows
take_rows-page lower zero b rows upper p all h = cc
take_rows-page lower (suc a) b [] upper p all h = cc
take_rows-page lower (suc a) b (row ∷ rows) upper p all h =
    elim (last_of-cons row (take_rows a rows) p h) [
      | inl single ↦
          rw
            (
              take_rows-suc a b row rows,
              rows_where-skip p row rows (omega (arith, single.1)),
              rows_where-all p row.outbox_position rows upper (omega (arith, single.1)) all.1,
              single.0,
              take_rows-none a b rows single.0,
            )
            refl
      | inr deeper ↦
          rw
            (
              take_rows-suc a b row rows,
              rows_where-skip p row rows
                  (omega (arith, last_of-above row.outbox_position a rows upper p all.1 deeper)),
            )
            (ap (◌∷◌ row) (take_rows-page row.outbox_position a b rows upper p all.1 deeper))
    ]

rows_where-beyond :
    (lower c a : ℕ) (row : OutboxRow) (rows : List OutboxRow) (upper p : ℕ)
    → IsAscending lower (row ∷ rows) upper
    → row.outbox_position ≤ c
    → last_of (take_rows a (rows_where (is_after c) rows)) ≡ some p
    → rows_where (is_after p) (rows_where (is_after c) rows) ≡ rows_where (is_after p) rows
    → rows_where (is_after p) (rows_where (is_after c) (row ∷ rows))
      ≡ rows_where (is_after p) (row ∷ rows)
rows_where-beyond lower c a row rows upper p all skip h twice =
    let above =
      last_of-above row.outbox_position a (rows_where (is_after c) rows) upper p
        (rows_where-IsAscending c row.outbox_position rows upper all.1) h in
    ap (rows_where (is_after p)) (rows_where-skip c row rows skip)
    ∙ twice
    ∙ sym (rows_where-skip p row rows (omega (arith, above)))

rows_where-twice :
    (lower c a : ℕ) (rows : List OutboxRow) (upper p : ℕ)
    → IsAscending lower rows upper
    → last_of (take_rows a (rows_where (is_after c) rows)) ≡ some p
    → rows_where (is_after p) (rows_where (is_after c) rows) ≡ rows_where (is_after p) rows
unfolding rows_where
rows_where-twice lower c a [] upper p all h = refl
rows_where-twice lower c a (row ∷ rows) upper p all h =
    elim (Bool-cases (ltb c row.outbox_position)) [
      | inl after ↦
          ap (rows_where (is_after p))
            (rows_where-all c c (row ∷ rows) upper (omega arith) (ground arith, all.1))
      | inr before ↦
          let skip : row.outbox_position ≤ c = ground arith in
          rows_where-beyond lower c a row rows upper p all skip
            (ap (λ (later : List OutboxRow). last_of (take_rows a later))
                (sym (rows_where-skip c row rows skip))
              ∙ h)
            (rows_where-twice row.outbox_position c a rows upper p all.1 (
              ap (λ (later : List OutboxRow). last_of (take_rows a later))
                (sym (rows_where-skip c row rows skip))
              ∙ h))
    ]

pub rows_where-page :
    (lower c a b : ℕ) (rows : List OutboxRow) (upper p : ℕ)
    → IsAscending lower rows upper
    → last_of (take_rows a (rows_where (is_after c) rows)) ≡ some p
    → take_rows (a + b) (rows_where (is_after c) rows)
      ≡ take_rows a (rows_where (is_after c) rows) ++ take_rows b (rows_where (is_after p) rows)
rows_where-page lower c a b rows upper p all h =
    take_rows-page lower a b (rows_where (is_after c) rows) upper p
      (rows_where-IsAscending c lower rows upper all) h
    ∙ ap
        (λ (later : List OutboxRow).
          take_rows a (rows_where (is_after c) rows) ++ take_rows b later)
        (rows_where-twice lower c a rows upper p all h)
