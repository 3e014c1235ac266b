-- ===== src/KernelSqlite/Cursor.antt =====
-- The text of an Outbox cursor (rust/crates/kernel-sqlite/src/outbox.rs, `OutboxCursor`).
use shittim.Base.{
  ℕ, ◌<◌, true, false, not, ◌||◌, Result, ok, err, is_empty, if◌then◌else◌, Text, ltb,
  decimal_usize, all_digits, decimal_value, decimal_usize_lem, ◌≡◌, arith,
}
use shittim.KernelSqlite.Store.{StoreErrorCode, invalid_cursor}

-- `OutboxCursor::from_str`
unfoldable pub cursor_from_str : Text → Result StoreErrorCode ℕ
unfolding decimal_value
cursor_from_str value =
    if is_empty value || not (all_digits value)
    then err invalid_cursor
    else if ltb (decimal_value 0 value) 9223372036854775808
    then ok (decimal_value 0 value)
    else err invalid_cursor

read-cursor :
    (value : Text) (n : ℕ)
    → is_empty value ≡ false
    → all_digits value ≡ true
    → decimal_value 0 value ≡ n
    → n < 9223372036854775808
    → cursor_from_str value ≡ ok n
unfolding cursor_from_str
read-cursor value n some_text digits number h = ground arith

-- The text of a position or a cursor, as an envelope carries it, is read as the cursor itself.
pub cursor_from_str-decimal_usize :
    (n : ℕ) → n < 9223372036854775808 → cursor_from_str (decimal_usize n) ≡ ok n
cursor_from_str-decimal_usize n h =
    let text = decimal_usize_lem n (omega (arith, h)) in
    read-cursor (decimal_usize n) n text.0 text.1 text.2 h
