-- ===== src/DomainPolicy/TimeWindow/Meaning.antt =====
-- When an instant lies in a time window (rust/crates/domain-policy/src/matcher.rs).
use shittim.Base.{
  ℕ, Bool, true, false, Option, none, some, List, [], ◌∷◌, ◌≡◌, ◌≢◌, ◌⊎◌, inl, inr, ◌↔◌, refl,
  arith, is_empty, Some, ok, ok_or, reject_if, and_then-eq-ok, Text, ℤ,
}
use shittim.Contracts.PolicyTypes.{PolicyRuleConditionTimeWindow}
use shittim.DomainPolicy.TimeWindow.Weekdays.{
  Item, day_of, IsDistinct, AreNew-empty, insert_weekdays_sound, insert_weekdays_complete,
  has_weekday-insert_weekdays,
}
use shittim.DomainPolicy.Error.{PolicyErrorCode, unsupported_policy_condition}
use shittim.DomainPolicy.TimeWindow.{
  Weekday, pred, has_weekday, insert_weekdays, is_inside, time_window_matches,
}
use shittim.DomainPolicy.TimeWindow.Open.{IsOpen, is_inside_iff, Some-IsOpen}

-- A window that can be read: the zone exists, there are weekdays and none comes twice, and both
-- times can be read.
pub record IsReadable (local_time : Text → ℤ → Option (Weekday × ℕ)) (parse_time : Text → Option ℕ)
    (window : PolicyRuleConditionTimeWindow) (instant : ℤ) (today : Weekday) (seconds start end : ℕ)
    : Type 0 where
  pub zone : local_time window.timezone instant ≡ some (today, seconds)
  pub not_empty : window.weekdays ≢ []
  pub distinct : IsDistinct window.weekdays
  pub start_read : parse_time window.local_start ≡ some start
  pub end_read : parse_time window.local_end ≡ some end

given_weekdays : (items : List Item) → items ≢ [] → is_empty items ≡ false
given_weekdays [] h = absurd (h refl)
given_weekdays (item ∷ items) h = refl

-- Nothing is in the empty set.
given_items : (S : Type 0) → (◌≡◌ {A = Bool} false true) ⊎ S → S
given_items S (inl e) = cc
given_items S (inr s) = s

module _ (local_time : Text → ℤ → Option (Weekday × ℕ)) (parse_time : Text → Option ℕ)
    (window : PolicyRuleConditionTimeWindow) (instant : ℤ) where
  is_empty-ne :
      (items : List Item)
      → reject_if (is_empty items) unsupported_policy_condition ≡ ok tt
      → items ≢ []
  is_empty-ne [] h e = cc
  is_empty-ne (item ∷ items) h e = cc

  ok_or-ok :
      {A : Type 0} (o : Option A) (a : A) (e : PolicyErrorCode) → ok_or o e ≡ ok a → o ≡ some a
  ok_or-ok (some b) a e h = ground arith
  ok_or-ok none a e h = absurd (ground arith)

  time_window_matches_sound :
      (answer : Bool)
      → time_window_matches local_time parse_time window instant ≡ ok answer
      → (today : Weekday) × (seconds : ℕ) × (start : ℕ) × (end : ℕ) × (names : List Text)
        × IsReadable local_time parse_time window instant today seconds start end
        × (insert_weekdays [] window.weekdays ≡ ok names)
        × (is_inside names start end today seconds ≡ answer)
  unfolding time_window_matches
  time_window_matches_sound answer h =
      let (now, zone, h1) =
        and_then-eq-ok (ok_or (local_time window.timezone instant) unsupported_policy_condition) _
          h in
      let (_, given, h2) =
        and_then-eq-ok (reject_if (is_empty window.weekdays) unsupported_policy_condition) _ h1 in
      let (names, inserted, h3) = and_then-eq-ok (insert_weekdays [] window.weekdays) _ h2 in
      let (start, start_read, h4) =
        and_then-eq-ok (ok_or (parse_time window.local_start) unsupported_policy_condition) _ h3 in
      let (end, end_read, h5) =
        and_then-eq-ok (ok_or (parse_time window.local_end) unsupported_policy_condition) _ h4 in
      (
        now.0,
        now.1,
        start,
        end,
        names,
        record {
          zone =
              ok_or-ok (local_time window.timezone instant) now unsupported_policy_condition zone;
          not_empty = is_empty-ne window.weekdays given;
          distinct = (insert_weekdays_sound [] window.weekdays names inserted).0;
          start_read =
              ok_or-ok (parse_time window.local_start) start unsupported_policy_condition
                start_read;
          end_read =
              ok_or-ok (parse_time window.local_end) end unsupported_policy_condition end_read;
        },
        inserted,
        ground arith,
      )

  time_window_matches_complete :
      (today : Weekday) (seconds start end : ℕ)
      → IsReadable local_time parse_time window instant today seconds start end
      → (names : List Text) × (insert_weekdays [] window.weekdays ≡ ok names)
        × (time_window_matches local_time parse_time window instant
            ≡ ok (is_inside names start end today seconds))
  unfolding time_window_matches
  time_window_matches_complete today seconds start end r =
      let (names, inserted) =
        insert_weekdays_complete [] window.weekdays r.distinct (AreNew-empty window.weekdays) in
      (
        names,
        inserted,
        rw (r.zone, given_weekdays window.weekdays r.not_empty, inserted, r.start_read, r.end_read),
      )

  -- The set of the window answers for a day as its items do.
  is_inside-IsOpen :
      (today : Weekday) (seconds start end : ℕ) (names : List Text)
      → insert_weekdays [] window.weekdays ≡ ok names
      → (is_inside names start end today seconds ≡ true)
        ↔ Some (λ item. IsOpen start end today seconds (day_of item)) window.weekdays
  unfolding has_weekday
  is_inside-IsOpen today seconds start end names inserted =
      let (tests_out, tests_back) = is_inside_iff start end today seconds names in
      let (open_out, open_back) = Some-IsOpen start end today seconds window.weekdays in
      let (today_out, today_back) =
        has_weekday-insert_weekdays [] window.weekdays names today inserted in
      let (before_out, before_back) =
        has_weekday-insert_weekdays [] window.weekdays names (pred today) inserted in
      (
        λ h. open_back (elim (tests_out h) [
          | inl a ↦ inl (given_items _ (today_out a.0), a.1)
          | inr b ↦ inr (given_items _ (before_out b.0), b.1)
        ]),
        λ s. tests_back (elim (open_out s) [
          | inl a ↦ inl (today_back (inr a.0), a.1)
          | inr b ↦ inr (before_back (inr b.0), b.1)
        ]),
      )

  -- An answer is given exactly when the window can be read: its zone exists, it names weekdays and
  -- none twice, and both times can be read. The answer is true exactly when the window that starts
  -- on one of its weekdays is open at the local time.
  pub time_window_matches_iff :
      (((answer : Bool) × (time_window_matches local_time parse_time window instant ≡ ok answer))
        ↔ ((today : Weekday) × (seconds : ℕ) × (start : ℕ) × (end : ℕ) × IsReadable local_time
              parse_time window instant today seconds start end))
      × ((time_window_matches local_time parse_time window instant ≡ ok true) ↔ (
          (today : Weekday) × (seconds : ℕ) × (start : ℕ) × (end : ℕ) × IsReadable local_time
            parse_time window instant today seconds start end
          × Some (λ item. IsOpen start end today seconds (day_of item)) window.weekdays))
  time_window_matches_iff = (
    (
      λ a.
          let (today, seconds, start, end, names, r, _, _) = time_window_matches_sound a.0 a.1 in
          (today, seconds, start, end, r),
      λ a.
          let (names, _, h) = time_window_matches_complete a.0 a.1 a.2 a.3 a.4 in
          (is_inside names a.2 a.3 a.0 a.1, h),
    ),
    (
      λ h.
          let (today, seconds, start, end, names, r, inserted, inside) =
            time_window_matches_sound true h in
          (
            today,
            seconds,
            start,
            end,
            r,
            (is_inside-IsOpen today seconds start end names inserted).0 inside,
          ),
      λ a.
          let (names, inserted, h) = time_window_matches_complete a.0 a.1 a.2 a.3 a.4 in
          rw ((is_inside-IsOpen a.0 a.1 a.2 a.3 names inserted).1 a.5) at h,
    ),
  )
