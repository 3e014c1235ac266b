-- ===== src/KernelSqlite/Outbox/Paging.antt =====
-- Pages of the Outbox, read one after the other
-- (rust/crates/kernel-sqlite/src/outbox.rs, `read_after` and `read_records`).
use shittim.Base.{
  ℕ, ◌+◌, ◌≤◌, ◌<◌, Bool, Option, none, some, List, ◌++◌, ok, try_map, try_map-append, ok-injective,
  Text, ◌≡◌, refl, sym, ap, ◌∙◌, arith,
}
use shittim.KernelSqlite.Store.{StoreErrorCode, select_rows, Database}
use shittim.KernelSqlite.OutboxTables.{OutboxRow, Tables, rows_where, take_rows, is_after}
use shittim.KernelSqlite.Events.{OutboxRecord, EventCodec}
use shittim.KernelSqlite.Cursor.{cursor_from_str, cursor_from_str-decimal_usize}
use shittim.KernelSqlite.Outbox.{decode_row, read_records, read_after}
use shittim.KernelSqlite.Outbox.Numbering.{IsNumbered}
use shittim.KernelSqlite.Outbox.Positions.{last_of, last_text, last_text-last_of}
use shittim.KernelSqlite.Outbox.Pages.{rows_where-IsAscending, last_of-below, rows_where-page}
use shittim.KernelSqlite.Outbox.Reachable.{IsReachable, IsReachable-IsNumbered}

-- The rows of the page of `limit` events behind `cursor`.
abbrev pub page_rows : Tables → ℕ → ℕ → List OutboxRow
page_rows tables cursor limit = take_rows limit (rows_where (is_after cursor) tables.outbox)

module _ (codec : EventCodec) (database : Database Tables) where
  read_records-ok :
      (tables : Tables) (condition : OutboxRow → Bool) (limit : ℕ) (page : List OutboxRecord)
      (refusal : Option StoreErrorCode)
      → database.refuses select_rows tables ≡ refusal
      → read_records codec database tables condition limit ≡ ok page
      → (refusal ≡ none)
        × (try_map (decode_row codec) (take_rows limit (rows_where condition tables.outbox))
            ≡ ok page)
  unfolding read_records
  read_records-ok tables condition limit page none e h = (refl, rw (read_records, e) at h)
  read_records-ok tables condition limit page (some code) e h =
      let g = rw (read_records, e) at h in cc

  -- The pages of rows that two readings with the same cursor in between make up.
  read_rows-read_rows :
      (tables : Tables) (cursor reached limit more : ℕ) (page next : List OutboxRecord)
      → IsNumbered tables
      → last_of (page_rows tables cursor limit) ≡ some reached
      → read_after codec database tables cursor limit ≡ ok page
      → read_after codec database tables reached more ≡ ok next
      → read_after codec database tables cursor (limit + more) ≡ ok (page ++ next)
  unfolding read_after read_records
  read_rows-read_rows tables cursor reached limit more page next numbered last h k =
      let first =
        read_records-ok tables (is_after cursor) limit page (database.refuses select_rows tables)
          refl h in
      let second =
        read_records-ok tables (is_after reached) more next (database.refuses select_rows tables)
          refl k in
      rw
        (
          read_after,
          read_records,
          first.0,
          rows_where-page 0 cursor limit more tables.outbox tables.last_position reached
              numbered.ascending last,
        )
        (try_map-append (decode_row codec) (page_rows tables cursor limit)
          (page_rows tables reached more) page next first.1 second.1)

  -- The text that a page ends with is read as the cursor of the page's last row.
  cursor-last_of :
      (tables : Tables) (cursor limit reached : ℕ) (page : List OutboxRecord) (text : Text)
      → IsNumbered tables
      → tables.last_position < 9223372036854775808
      → read_after codec database tables cursor limit ≡ ok page
      → last_text page ≡ some text
      → cursor_from_str text ≡ ok reached
      → last_of (page_rows tables cursor limit) ≡ some reached
  unfolding read_after
  cursor-last_of tables cursor limit reached page text numbered bound h last parsed =
      let first =
        read_records-ok tables (is_after cursor) limit page (database.refuses select_rows tables)
          refl h in
      let (position, last_is, text_is) =
        last_text-last_of codec (page_rows tables cursor limit) page text first.1 last in
      let below : position ≤ tables.last_position =
        last_of-below 0 limit (rows_where (is_after cursor) tables.outbox) tables.last_position
          position
          (rows_where-IsAscending cursor 0 tables.outbox tables.last_position numbered.ascending)
          last_is in
      let same : position ≡ reached = ok-injective (
        sym (cursor_from_str-decimal_usize position (omega (arith, below, bound)))
        ∙ ap cursor_from_str (sym text_is)
        ∙ parsed) in
      last_is ∙ ap some same

  -- In reachable tables with positions of an i64, a page of `limit` events behind `cursor` is read and
  -- the position that its last event carries is parsed as the next cursor, behind which a page of
  -- `more` events is read: the two are the page of `limit + more` events behind `cursor`, so that no
  -- event is skipped or read twice.
  pub read_after-read_after :
      (tables : Tables) (cursor reached limit more : ℕ) (text : Text)
      (page next : List OutboxRecord)
      → IsReachable codec database tables
      → tables.last_position < 9223372036854775808
      → read_after codec database tables cursor limit ≡ ok page
      → last_text page ≡ some text
      → cursor_from_str text ≡ ok reached
      → read_after codec database tables reached more ≡ ok next
      → read_after codec database tables cursor (limit + more) ≡ ok (page ++ next)
  read_after-read_after tables cursor reached limit more text page next reachable bound h last
        parsed k =
      let numbered = IsReachable-IsNumbered codec database reachable in
      read_rows-read_rows tables cursor reached limit more page next numbered
        (cursor-last_of tables cursor limit reached page text numbered bound h last parsed) h k
