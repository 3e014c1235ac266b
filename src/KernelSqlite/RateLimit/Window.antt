-- ===== src/KernelSqlite/RateLimit/Window.antt =====
-- The bound that the rate-limit authority keeps
-- (rust/crates/kernel-sqlite/src/rate_limit.rs, `check_and_consume`).
use shittim.Base.{
  ℕ, ◌≤◌, ◌<◌, Bool, true, not, Bool-cases, List, [], ◌∷◌, Result, ok, err, ok_or, ok_or-eq-ok, ◌∙◌,
  and_then-eq-ok, ok-injective, ◌≡◌, ◌≢◌, refl, sym, ap, subst, arith, Ordering, ◌⊎◌, inl, inr,
  is_empty, ◌||◌, text_eq_iff, ℤ, pos, negate, plus, times, int_ltb, int_ltb_trans, int_eq,
  int_eq_iff, checked_i64, checked_i64-exact, int_cmp, plus_mono,
}
use shittim.DomainPolicy.Error.{PolicyErrorCode, rate_limit_failed}
use shittim.DomainPolicy.RateLimit.{RateLimitRequest, RateLimitConsume}
use shittim.KernelSqlite.RateLimit.{
  Consumption, Sqlite, refuse_if, is_not_positive, ValidatedFacts, validated_facts, is_counted,
  select_count, consumption_of, count_consumptions, insert_consumption, consume_when, usage,
  check_and_consume,
}

-- The start of the window that ends at `now`, as an unbounded integer.
abbrev pub window_start_at : RateLimitRequest → ℤ → ℤ
window_start_at limit now = plus now (negate (times limit.window_seconds (pos 1000000)))

-- The consumptions of the limit in the window that ends at `now`.
abbrev pub used_at : RateLimitRequest → ℤ → List Consumption → ℕ
used_at limit now rows = select_count (is_counted limit (window_start_at limit now)) rows

-- A request under the same rule, revision and key has the same window and count.
pub record IsUnder (limit request : RateLimitRequest) : Type 0 where
  pub agrees :
      request.rule_id ≡ limit.rule_id
      → request.rule_revision ≡ limit.rule_revision
      → request.key ≡ limit.key
      → (request.window_seconds ≡ limit.window_seconds) × (request.count ≡ limit.count)

-- Requests of any rules, one after the other, at instants that do not decrease.
pub data Serves (database : Sqlite) (limit : RateLimitRequest)
    : ℤ → List Consumption → ℤ → List Consumption → Type 0 where
  idle : {now : ℤ} {rows : List Consumption} → Serves database limit now rows now rows
  serves :
      {now later : ℤ} {request : RateLimitRequest} {rows others last : List Consumption}
      {answer : Result PolicyErrorCode RateLimitConsume}
      → int_cmp now request.instant ≢ Ordering.gt
      → IsUnder limit request
      → check_and_consume database request rows ≡ (answer, others)
      → Serves database limit request.instant others later last
      → Serves database limit now rows later last

select_count-le :
    (p q : Consumption → Bool) (rows : List Consumption)
    → ((row : Consumption) → p row ≡ true → q row ≡ true)
    → select_count p rows ≤ select_count q rows
unfolding select_count
select_count-le p q [] h = omega arith
select_count-le p q (row ∷ rows) h = ground (arith, h row, select_count-le p q rows h)

-- A later window holds no more of the same rows.
is_counted-later :
    (limit : RateLimitRequest) (start later : ℤ) (row : Consumption)
    → int_cmp start later ≢ Ordering.gt
    → is_counted limit later row ≡ true
    → is_counted limit start row ≡ true
unfolding is_counted
is_counted-later limit start later row h k =
    ground (arith, int_ltb_trans start later row.consumed_at_micros h)

used_at-later :
    (limit : RateLimitRequest) (now later : ℤ) (rows : List Consumption)
    → int_cmp now later ≢ Ordering.gt
    → used_at limit later rows ≤ used_at limit now rows
used_at-later limit now later rows h = select_count-le _ _ rows (λ row.
    is_counted-later limit (window_start_at limit now) (window_start_at limit later) row
      (plus_mono now later (negate (times limit.window_seconds (pos 1000000))) h))

-- What accepted facts say.
validated_facts-exact :
    (request : RateLimitRequest) (facts : ValidatedFacts)
    → validated_facts request ≡ ok facts
    → (facts.instant_micros ≡ request.instant)
      × (facts.window_start ≡ window_start_at request request.instant)
unfolding validated_facts
validated_facts-exact request facts h =
    let (checked, c, h1) =
      and_then-eq-ok
        (refuse_if (
          is_empty request.rule_id
          || is_not_positive request.rule_revision
          || is_empty request.key
          || is_not_positive request.count
          || is_not_positive request.window_seconds))
        _ h in
    let (window_micros, m, h2) =
      and_then-eq-ok
        (ok_or (checked_i64 (times request.window_seconds (pos 1000000))) rate_limit_failed) _ h1 in
    let (window_start, w, h3) =
      and_then-eq-ok
        (ok_or (checked_i64 (plus request.instant (negate window_micros))) rate_limit_failed) _
        h2 in
    let (same, e, h4) =
      and_then-eq-ok (refuse_if (not (int_eq request.instant request.instant))) _ h3 in
    let facts_are = ok-injective h4 in
    let micros = checked_i64-exact _ window_micros (ok_or-eq-ok _ _ m) in
    let start = checked_i64-exact _ window_start (ok_or-eq-ok _ _ w) in
    (
      sym (ap (λ f. f.instant_micros) facts_are),
      sym (ap (λ f. f.window_start) facts_are)
          ∙ (sym start ∙ ap (λ x. plus request.instant (negate x)) (sym micros)),
    )

insert_consumption-cases :
    (database : Sqlite) (row : Consumption) (rows others : List Consumption)
    (answer : Result PolicyErrorCode RateLimitConsume)
    → insert_consumption database row rows ≡ (answer, others)
    → (others ≡ rows) ⊎ (others ≡ row ∷ rows)
unfolding insert_consumption
insert_consumption-cases database row rows others answer h =
    elim (Bool-cases (database.insert_fails row rows)) [
      | inl fails ↦ inl (sym (ap (λ pair. pair.1) (rw fails at h)))
      | inr inserts ↦ inr (sym (ap (λ pair. pair.1) (rw inserts at h)))
    ]

consume_when-cases :
    (database : Sqlite) (request : RateLimitRequest) (facts : ValidatedFacts) (used : ℤ)
    (rows others : List Consumption) (answer : Result PolicyErrorCode RateLimitConsume)
    → consume_when database request (ok (facts, used)) rows ≡ (answer, others)
    → (others ≡ rows)
      ⊎ ((others ≡ consumption_of request facts.instant_micros ∷ rows)
          × (int_ltb used request.count ≡ true))
unfolding consume_when
consume_when-cases database request facts used rows others answer h =
    elim (Bool-cases (int_ltb used request.count)) [
      | inl less ↦
          elim (insert_consumption-cases database (consumption_of request facts.instant_micros) rows
            others answer (rw less at h)) [ inl same ↦ inl same | inr added ↦ inr (added, less) ]
      | inr full ↦ inl (sym (ap (λ pair. pair.1) (rw full at h)))
    ]

count_consumptions-exact :
    (database : Sqlite) (request : RateLimitRequest) (start : ℤ) (rows : List Consumption)
    (counted : ℤ)
    → count_consumptions database request start rows ≡ ok counted
    → counted ≡ pos (select_count (is_counted request start) rows)
unfolding count_consumptions
count_consumptions-exact database request start rows counted h =
    elim (Bool-cases (database.query_fails request rows)) [
      | inl fails ↦ cc (rw fails at h)
      | inr answers ↦ sym (ok-injective (rw answers at h))
    ]

int_ltb-pos : (m n : ℕ) → int_ltb (pos m) (pos n) ≡ true → m < n
unfolding int_ltb int_cmp
int_ltb-pos m n h = ground arith

-- The facts and the use that both operations begin with.
pub usage-exact :
    (database : Sqlite) (request : RateLimitRequest) (rows : List Consumption)
    (facts : ValidatedFacts) (used : ℤ)
    → usage database request rows ≡ ok (facts, used)
    → (facts.instant_micros ≡ request.instant) × (used ≡ pos (used_at request request.instant rows))
usage-exact database request rows facts used h =
    let (valid, v, h1) = and_then-eq-ok (validated_facts request) _ h in
    let (counted, c, h2) =
      and_then-eq-ok (count_consumptions database request valid.window_start rows) _ h1 in
    let facts_are = ap (λ pair. pair.0) (ok-injective h2) in
    let (micros, start) = validated_facts-exact request valid v in
    (
      sym (ap (λ f. f.instant_micros) facts_are) ∙ micros,
      sym (ap (λ pair. pair.1) (ok-injective h2))
          ∙ (count_consumptions-exact database request valid.window_start rows counted c
              ∙ ap (λ w. pos (select_count (is_counted request w) rows)) start),
    )

-- An answer keeps the rows, or adds one where fewer than `count` were used.
check_and_consume-cases :
    (database : Sqlite) (request : RateLimitRequest) (rows others : List Consumption)
    (answer : Result PolicyErrorCode RateLimitConsume)
    → check_and_consume database request rows ≡ (answer, others)
    → (others ≡ rows)
      ⊎ ((others ≡ consumption_of request request.instant ∷ rows)
          × (int_ltb (pos (used_at request request.instant rows)) request.count ≡ true))
unfolding check_and_consume
check_and_consume-cases database request rows others answer h =
    go (usage database request rows) refl h
  where
    go :
        (result : Result PolicyErrorCode (ValidatedFacts × ℤ))
        → usage database request rows ≡ result
        → consume_when database request result rows ≡ (answer, others)
        → (others ≡ rows)
          ⊎ ((others ≡ consumption_of request request.instant ∷ rows)
              × (int_ltb (pos (used_at request request.instant rows)) request.count ≡ true))
    go (err failure) e k = inl (sym (ap (λ pair. pair.1) k))
    go (ok (facts, used)) e k =
        let (micros, counted) = usage-exact database request rows facts used e in
        elim (consume_when-cases database request facts used rows others answer k) [
          | inl same ↦ inl same
          | inr (added, less) ↦ inr (
            added ∙ ap (λ m. consumption_of request m ∷ rows) micros,
            subst (λ u. int_ltb u request.count ≡ true) counted less,
          )
        ]

used_at-same :
    (limit request : RateLimitRequest) (now : ℤ) (rows : List Consumption)
    → request.rule_id ≡ limit.rule_id
    → request.rule_revision ≡ limit.rule_revision
    → request.key ≡ limit.key
    → request.window_seconds ≡ limit.window_seconds
    → used_at limit now rows ≤ used_at request now rows
unfolding is_counted
used_at-same limit request now rows id revision key window =
    select_count-le _ _ rows (λ row h. rw (id, revision, key, window) h)

-- A row that is added for a request counts under the limit only if the request is under it.
is_counted-consumption :
    (limit request : RateLimitRequest) (start : ℤ)
    → is_counted limit start (consumption_of request request.instant) ≡ true
    → (request.rule_id ≡ limit.rule_id)
      × (request.rule_revision ≡ limit.rule_revision)
      × (request.key ≡ limit.key)
unfolding is_counted
is_counted-consumption limit request start h = ground (
  arith,
  text_eq_iff request.rule_id limit.rule_id,
  int_eq_iff request.rule_revision limit.rule_revision,
  text_eq_iff request.key limit.key,
)

used_at-consumption :
    (limit request : RateLimitRequest) (rows : List Consumption) (n : ℕ)
    → limit.count ≡ pos n
    → IsUnder limit request
    → used_at limit request.instant rows ≤ n
    → int_ltb (pos (used_at request request.instant rows)) request.count ≡ true
    → used_at limit request.instant (consumption_of request request.instant ∷ rows) ≤ n
unfolding select_count
used_at-consumption limit request rows n count under h less =
    let start = window_start_at limit request.instant in
    elim (Bool-cases (is_counted limit start (consumption_of request request.instant))) [
      | inl counts ↦
          let (id, revision, key) = is_counted-consumption limit request start counts in
          let (window, same) = under.agrees id revision key in
          let below = used_at-same limit request request.instant rows id revision key window in
          let fewer = int_ltb-pos (used_at request request.instant rows) n (
            subst (λ c. int_ltb (pos (used_at request request.instant rows)) c ≡ true)
              (same ∙ count) less) in
          rw counts (omega arith)
      | inr other ↦ rw other h
    ]

-- The authority never lets more than `count` decisions through in a window. Whatever requests it
-- serves, of any rules, at instants that do not decrease and with one window and count for the
-- rule, revision and key of the limit, no more than `count` rows of the limit lie in the window that ends at the last
-- instant, if that held of the window that ended at the first.
pub check_and_consume-bound :
    (database : Sqlite) (limit : RateLimitRequest) (n : ℕ) (now later : ℤ)
    (rows last : List Consumption)
    → limit.count ≡ pos n
    → used_at limit now rows ≤ n
    → Serves database limit now rows later last
    → used_at limit later last ≤ n
check_and_consume-bound database limit n now later rows last count h Serves.idle = h
check_and_consume-bound database limit n now later rows last count h
      (Serves.serves {request} {others} {answer} ordered under asked rest) =
    let below = used_at-later limit now request.instant rows ordered in
    let next : used_at limit request.instant others ≤ n =
      elim (check_and_consume-cases database request rows others answer asked) [
        | inl same ↦ subst (λ r. used_at limit request.instant r ≤ n) (sym same) (omega arith)
        | inr (added, less) ↦
            subst (λ r. used_at limit request.instant r ≤ n) (sym added)
              (used_at-consumption limit request rows n count under (omega arith) less)
      ] in
    check_and_consume-bound database limit n request.instant later others last count next rest
