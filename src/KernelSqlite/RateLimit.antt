-- ===== src/KernelSqlite/RateLimit.antt =====
-- The rate-limit authority on the table `policy_rate_limit_consumptions`
-- (rust/crates/kernel-sqlite/src/rate_limit.rs).
pub mod Window
pub mod Preview
use shittim.Base.{
  ℕ, ◌+◌, Bool, true, false, not, ◌&&◌, ◌||◌, Option, none, some, List, [], ◌∷◌, map, Result, ok,
  err, ◌>>=◌, ◌>>◌, ok_or, if◌then◌else◌, Text, is_empty, text_eq, ℤ, pos, negate, plus, times,
  int_ltb, int_eq, checked_i64, int_cmp,
}
use shittim.DomainPolicy.Error.{PolicyErrorCode, rate_limit_failed}
use shittim.DomainPolicy.RateLimit.{
  RateLimitRequest, RateLimitPreview, available, RateLimitConsume, consumed, RateLimitPort,
}

-- A row of the table; its `id` and the constant `schema_version` are left out.
pub record Consumption : Type 0 where
  pub rule_id : Text
  pub rule_revision : ℤ
  pub rate_key : Text
  pub consumed_at_micros : ℤ

-- When the database refuses a query or an insertion.
pub record Sqlite : Type 0 where
  pub query_fails : RateLimitRequest → List Consumption → Bool
  pub insert_fails : Consumption → List Consumption → Bool

pub record ValidatedFacts : Type 0 where
  pub instant_micros : ℤ
  pub window_start : ℤ

-- `if c { return Err(…) }`
abbrev pub refuse_if : Bool → Result PolicyErrorCode (Unit {0})
refuse_if true = err rate_limit_failed
refuse_if false = ok tt

-- `n <= 0`
abbrev pub is_not_positive : ℤ → Bool
is_not_positive n = not (int_ltb (pos 0) n)

unfoldable pub validated_facts : RateLimitRequest → Result PolicyErrorCode ValidatedFacts
unfolding int_ltb int_eq checked_i64 times plus negate
validated_facts request = do
  refuse_if (
      is_empty request.rule_id
      || is_not_positive request.rule_revision
      || is_empty request.key
      || is_not_positive request.count
      || is_not_positive request.window_seconds)
  window_micros ← ok_or (checked_i64 (times request.window_seconds (pos 1000000))) rate_limit_failed
  window_start ← ok_or (checked_i64 (plus request.instant (negate window_micros))) rate_limit_failed
  refuse_if (not (int_eq request.instant request.instant))
  ok (record { instant_micros = request.instant; window_start = window_start })

-- The condition of the `SELECT COUNT(*)`
unfoldable pub is_counted : RateLimitRequest → ℤ → Consumption → Bool
unfolding text_eq int_eq int_ltb
is_counted request window_start row =
    text_eq row.rule_id request.rule_id
    && int_eq row.rule_revision request.rule_revision
    && text_eq row.rate_key request.key
    && int_ltb window_start row.consumed_at_micros

unfoldable pub select_count : (Consumption → Bool) → List Consumption → ℕ
select_count condition [] = 0
select_count condition (row ∷ rows) =
    if condition row then 1 + select_count condition rows else select_count condition rows

-- The row that an accepted request adds
abbrev pub consumption_of : RateLimitRequest → ℤ → Consumption
consumption_of request instant_micros = record {
  rule_id = request.rule_id;
  rule_revision = request.rule_revision;
  rate_key = request.key;
  consumed_at_micros = instant_micros;
}

module _ (database : Sqlite) where
  unfoldable pub count_consumptions :
      RateLimitRequest → ℤ → List Consumption → Result PolicyErrorCode ℤ
  unfolding select_count is_counted
  count_consumptions request window_start rows =
      if database.query_fails request rows
      then err rate_limit_failed
      else ok (pos (select_count (is_counted request window_start) rows))

  -- What both operations begin with
  abbrev pub usage :
      RateLimitRequest → List Consumption → Result PolicyErrorCode (ValidatedFacts × ℤ)
  usage request rows = do
    facts ← validated_facts request
    used ← count_consumptions request facts.window_start rows
    ok (facts, used)

  unfoldable pub preview :
      RateLimitRequest → List Consumption → Result PolicyErrorCode RateLimitPreview
  unfolding validated_facts count_consumptions
  preview request rows = do
    facts_and_used ← usage request rows
    ok (if int_ltb facts_and_used.1 request.count then available else RateLimitPreview.exceeded)

  -- The `INSERT`
  unfoldable pub insert_consumption :
      Consumption → List Consumption → Result PolicyErrorCode RateLimitConsume × List Consumption
  insert_consumption row rows =
      if database.insert_fails row rows
      then (err rate_limit_failed, rows)
      else (ok consumed, row ∷ rows)

  unfoldable pub consume_when :
      RateLimitRequest
      → Result PolicyErrorCode (ValidatedFacts × ℤ)
      → List Consumption
      → Result PolicyErrorCode RateLimitConsume × List Consumption
  unfolding insert_consumption int_ltb
  consume_when request (err failure) rows = (err failure, rows)
  consume_when request (ok (facts, used)) rows =
      if not (int_ltb used request.count)
      then (ok RateLimitConsume.exceeded, rows)
      else insert_consumption (consumption_of request facts.instant_micros) rows

  unfoldable pub check_and_consume :
      RateLimitRequest
      → List Consumption
      → Result PolicyErrorCode RateLimitConsume × List Consumption
  unfolding validated_facts count_consumptions consume_when
  check_and_consume request rows = consume_when request (usage request rows) rows

  -- `TransactionRateLimitPort`
  abbrev pub transaction_rate_limit_port : RateLimitPort (List Consumption)
  transaction_rate_limit_port = record { preview = preview; check_and_consume = check_and_consume }
