-- ===== src/KernelSqlite/RateLimit/Preview.antt =====
-- The preview and the consumption of the rate-limit authority agree
-- (rust/crates/kernel-sqlite/src/rate_limit.rs).
use shittim.Base.{
  true, false, Bool-cases, List, ◌∷◌, Result, ok, err, and_then, ap, ◌∙◌, ◌≡◌, ◌⊎◌, inl, inr, refl,
  ℤ, int_ltb, if◌then◌else◌,
}
use shittim.DomainPolicy.Error.{PolicyErrorCode, rate_limit_failed}
use shittim.DomainPolicy.RateLimit.{
  RateLimitRequest, RateLimitPreview, available, RateLimitConsume, consumed,
}
use shittim.KernelSqlite.RateLimit.{
  Consumption, Sqlite, ValidatedFacts, consumption_of, insert_consumption, consume_when, usage,
  preview, check_and_consume,
}
use shittim.KernelSqlite.RateLimit.Window.{usage-exact}

module _ (database : Sqlite) (request : RateLimitRequest) (rows : List Consumption) where
  -- What a preview promises of the consumption of the same request on the same rows.
  abbrev Promises : Result PolicyErrorCode RateLimitPreview → Type 0
  Promises (err failure) = check_and_consume database request rows ≡ (err failure, rows)
  Promises (ok RateLimitPreview.exceeded) =
      check_and_consume database request rows ≡ (ok RateLimitConsume.exceeded, rows)
  Promises (ok available) =
      (check_and_consume database request rows
        ≡ (ok consumed, consumption_of request request.instant ∷ rows))
      ⊎ ((check_and_consume database request rows ≡ (err rate_limit_failed, rows))
          × (database.insert_fails (consumption_of request request.instant) rows ≡ true))

  preview-usage :
      (result : Result PolicyErrorCode (ValidatedFacts × ℤ))
      → usage database request rows ≡ result
      → preview database request rows
        ≡ and_then result (λ facts_and_used.
          ok (
            if int_ltb facts_and_used.1 request.count
            then available
            else RateLimitPreview.exceeded))
  unfolding preview
  preview-usage result e = rw e

  check_and_consume-usage :
      (result : Result PolicyErrorCode (ValidatedFacts × ℤ))
      → usage database request rows ≡ result
      → check_and_consume database request rows ≡ consume_when database request result rows
  unfolding check_and_consume
  check_and_consume-usage result e = rw e

  consumption_of-usage :
      (facts : ValidatedFacts) (used : ℤ)
      → usage database request rows ≡ ok (facts, used)
      → int_ltb used request.count ≡ true
      → check_and_consume database request rows
        ≡ insert_consumption database (consumption_of request request.instant) rows
  unfolding consume_when
  consumption_of-usage facts used e less =
      let (micros, counted) = usage-exact database request rows facts used e in
      check_and_consume-usage (ok (facts, used)) e
      ∙ rw less (ap (λ m. insert_consumption database (consumption_of request m) rows) micros)

  consume_when-err :
      (failure : PolicyErrorCode)
      → consume_when database request (err failure) rows ≡ (err failure, rows)
  unfolding consume_when
  consume_when-err failure = refl

  consume_when-full :
      (facts : ValidatedFacts) (used : ℤ)
      → int_ltb used request.count ≡ false
      → consume_when database request (ok (facts, used)) rows ≡ (ok RateLimitConsume.exceeded, rows)
  unfolding consume_when
  consume_when-full facts used full = rw full

  Promises-available :
      check_and_consume database request rows
        ≡ insert_consumption database (consumption_of request request.instant) rows
      → Promises (ok available)
  unfolding insert_consumption
  Promises-available h =
      elim (Bool-cases (database.insert_fails (consumption_of request request.instant) rows)) [
        | inl fails ↦ inr (h ∙ rw fails, fails)
        | inr inserts ↦ inl (h ∙ rw inserts)
      ]

  -- What a preview answers, the consumption of the same request on the same rows does: an error is
  -- the same error, an exceeded limit is exceeded, both without a change, and an available one
  -- adds the row of the request, unless the database refuses that row.
  pub preview-check_and_consume : Promises (preview database request rows)
  preview-check_and_consume = go (usage database request rows) refl
    where
      go :
          (result : Result PolicyErrorCode (ValidatedFacts × ℤ))
          → usage database request rows ≡ result
          → Promises (preview database request rows)
      go (err failure) e =
          rw (preview-usage (err failure) e)
            (check_and_consume-usage (err failure) e ∙ consume_when-err failure)
      go (ok (facts, used)) e = elim (Bool-cases (int_ltb used request.count)) [
        | inl less ↦
            rw (preview-usage (ok (facts, used)) e, less)
              (Promises-available (consumption_of-usage facts used e less))
        | inr full ↦
            rw (preview-usage (ok (facts, used)) e, full)
              (check_and_consume-usage (ok (facts, used)) e ∙ consume_when-full facts used full)
      ]
