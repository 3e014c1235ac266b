-- ===== src/KernelSqlite/Outbox/Numbering.antt =====
-- How the Outbox numbers its events (rust/crates/kernel-sqlite/src/outbox.rs).
use shittim.Base.{
  ℕ, zero, suc, ◌≤◌, ◌<◌, Bool, false, Bool-cases, not, ◌&&◌, ◌==◌, List, [], ◌∷◌, ◌++◌,
  if◌then◌else◌, Text, text_eq, text_eq_iff, ◌≡◌, refl, arith, inl, inr, is_present,
}
use shittim.KernelSqlite.OutboxTables.{
  OutboxRow, SequenceRow, Tables, next_sequence, upsert, set_delivered,
}

-- Whether a row is of the aggregate.
abbrev pub is_of : Text → Text → OutboxRow → Bool
is_of aggregate_type aggregate_id row =
    text_eq row.aggregate_type aggregate_type && text_eq row.aggregate_id aggregate_id

-- The sequences of the events of an aggregate, in the order of their positions.
unfoldable pub sequences_of : Text → Text → List OutboxRow → List ℕ
unfolding text_eq
sequences_of aggregate_type aggregate_id [] = []
sequences_of aggregate_type aggregate_id (row ∷ rows) =
    let later = sequences_of aggregate_type aggregate_id rows in
    if is_of aggregate_type aggregate_id row then row.sequence ∷ later else later

-- 0, 1, …, n - 1
unfoldable pub upto : ℕ → List ℕ
upto zero = []
upto (suc n) = upto n ++ (n ∷ [])

-- Positions that increase, above `lower` and up to `upper`.
abbrev pub IsAscending : ℕ → List OutboxRow → ℕ → Type 0
IsAscending lower [] upper = lower ≤ upper
IsAscending lower (row ∷ rows) upper =
    (lower < row.outbox_position) × IsAscending row.outbox_position rows upper

-- Each aggregate's events bear 0, 1, 2 and so on without a gap, and the counter of the aggregate is
-- the next number; the positions increase and the last one that was given is not behind them.
pub record IsNumbered (tables : Tables) : Type 0 where
  pub numbered :
      (aggregate_type aggregate_id : Text)
      → sequences_of aggregate_type aggregate_id tables.outbox
        ≡ upto (next_sequence aggregate_type aggregate_id tables.sequences)
  pub ascending : IsAscending 0 tables.outbox tables.last_position

pub sequences_of-append :
    (aggregate_type aggregate_id : Text) (rows : List OutboxRow) (row : OutboxRow)
    → sequences_of aggregate_type aggregate_id (rows ++ (row ∷ []))
      ≡ sequences_of aggregate_type aggregate_id rows
        ++ sequences_of aggregate_type aggregate_id (row ∷ [])
unfolding sequences_of
sequences_of-append t i [] row = refl
sequences_of-append t i (other ∷ rows) row = ground (arith, sequences_of-append t i rows row)

pub IsAscending-append :
    (lower : ℕ) (rows : List OutboxRow) (upper : ℕ) (row : OutboxRow)
    → IsAscending lower rows upper
    → row.outbox_position ≡ suc upper
    → IsAscending lower (rows ++ (row ∷ [])) row.outbox_position
IsAscending-append lower [] upper row all last = (omega arith, omega arith)
IsAscending-append lower (other ∷ rows) upper row all last =
    (all.0, IsAscending-append other.outbox_position rows upper row all.1 last)

pub set_delivered-sequences_of :
    (position : ℕ) (at : Text) (aggregate_type aggregate_id : Text) (rows : List OutboxRow)
    → sequences_of aggregate_type aggregate_id (set_delivered position at rows)
      ≡ sequences_of aggregate_type aggregate_id rows
unfolding sequences_of set_delivered
set_delivered-sequences_of position at t i [] = refl
set_delivered-sequences_of position at t i (row ∷ rows) =
    ground (arith, set_delivered-sequences_of position at t i rows)

pub set_delivered-IsAscending :
    (position : ℕ) (at : Text) (lower : ℕ) (rows : List OutboxRow) (upper : ℕ)
    → IsAscending lower rows upper
    → IsAscending lower (set_delivered position at rows) upper
unfolding set_delivered
set_delivered-IsAscending position at lower [] upper all = all
set_delivered-IsAscending position at lower (row ∷ rows) upper all =
    elim (Bool-cases (row.outbox_position == position && not (is_present row.delivered_at))) [
      | inl marks ↦
          rw marks
            (all.0, set_delivered-IsAscending position at row.outbox_position rows upper all.1)
      | inr other ↦
          rw other
            (all.0, set_delivered-IsAscending position at row.outbox_position rows upper all.1)
    ]

pub next_sequence-upsert_same :
    (t i : Text) (rows : List SequenceRow)
    → next_sequence t i (upsert t i rows) ≡ suc (next_sequence t i rows)
unfolding next_sequence upsert
next_sequence-upsert_same t i [] = ground (arith, text_eq_iff t t, text_eq_iff i i)
next_sequence-upsert_same t i (row ∷ rows) = ground (arith, next_sequence-upsert_same t i rows)

pub next_sequence-upsert_other :
    (t i u j : Text) (rows : List SequenceRow)
    → (text_eq t u && text_eq i j) ≡ false
    → next_sequence u j (upsert t i rows) ≡ next_sequence u j rows
unfolding next_sequence upsert
next_sequence-upsert_other t i u j [] other = ground arith
next_sequence-upsert_other t i u j (row ∷ rows) other = ground (
  arith,
  next_sequence-upsert_other t i u j rows other,
  text_eq_iff row.aggregate_type t,
  text_eq_iff row.aggregate_id i,
)
