-- ===== src/KernelSqlite/RateLimitExamples.antt =====
-- The theorems on the rate-limit authority at concrete inputs, and tests
-- (rust/crates/kernel-sqlite/src/rate_limit.rs).
use shittim.Base.{◌≤◌, false, List, [], ◌∷◌, ok, err, ◌≡◌, refl, arith, codes, ℤ, pos}
use shittim.DomainPolicy.Error.{rate_limit_failed}
use shittim.DomainPolicy.RateLimit.{RateLimitRequest, RateLimitConsume, consumed}
use shittim.KernelSqlite.RateLimit.{
  Consumption, Sqlite, select_count, consumption_of, preview, check_and_consume,
}
use shittim.KernelSqlite.RateLimit.Window.{used_at, IsUnder, Serves, check_and_consume-bound}
use shittim.KernelSqlite.RateLimit.Preview.{preview-check_and_consume}

-- A database that refuses nothing.
abbrev sound_database : Sqlite
sound_database = record { query_fails = λ request rows. false; insert_fails = λ row rows. false }

-- One decision a minute.
abbrev request_at : ℤ → RateLimitRequest
request_at instant = record {
  rule_id = codes "rule";
  rule_revision = pos 1;
  key = codes "actor";
  window_seconds = pos 60;
  count = pos 1;
  instant = instant;
}

abbrev minute : ℤ
minute = pos 60000000

abbrev rows_after_one : List Consumption
rows_after_one = consumption_of (request_at (pos 1)) (pos 1) ∷ []

abbrev rows_after_two : List Consumption
rows_after_two = consumption_of (request_at minute) minute ∷ rows_after_one

sample_consume :
    check_and_consume sound_database (request_at (pos 1)) [] ≡ (ok consumed, rows_after_one)
unfolding check_and_consume
sample_consume = refl

-- Within the minute the limit is exceeded, and a minute after the first decision it is not.
sample_exceeded :
    check_and_consume sound_database (request_at minute) rows_after_one
    ≡ (ok RateLimitConsume.exceeded, rows_after_one)
unfolding check_and_consume
sample_exceeded = refl

-- A window that does not fit into an i64 of microseconds is refused.
sample_overflow :
    check_and_consume sound_database
      (record (request_at minute) { window_seconds = pos 9223372036855 })
      rows_after_one
    ≡ (err rate_limit_failed, rows_after_one)
unfolding check_and_consume
sample_overflow = refl

preview-check_and_consume_example :
    check_and_consume sound_database (request_at minute) rows_after_one
    ≡ (ok RateLimitConsume.exceeded, rows_after_one)
unfolding preview
preview-check_and_consume_example =
    preview-check_and_consume sound_database (request_at minute) rows_after_one

sample_history : Serves sound_database (request_at (pos 0)) (pos 0) [] minute rows_after_one
unfolding check_and_consume
sample_history =
    Serves.serves {request = request_at (pos 1)} (λ h. cc) same sample_consume
      (Serves.serves {request = request_at minute} (λ h. cc) same sample_exceeded Serves.idle)
  where
    same : {instant : ℤ} → IsUnder (request_at (pos 0)) (request_at instant)
    same = record { agrees = λ id revision key. (refl, refl) }

nothing_used : used_at (request_at (pos 0)) (pos 0) [] ≤ 1
unfolding select_count
nothing_used = omega arith

check_and_consume-bound_example : used_at (request_at (pos 0)) minute rows_after_one ≤ 1
check_and_consume-bound_example =
    check_and_consume-bound sound_database (request_at (pos 0)) 1 (pos 0) minute [] rows_after_one
      refl nothing_used sample_history
