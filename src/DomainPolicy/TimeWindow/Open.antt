-- ===== src/DomainPolicy/TimeWindow/Open.antt =====
-- When a window that starts on a day is open (rust/crates/domain-policy/src/matcher.rs).
use shittim.Base.{
  ℕ, ◌≤◌, ◌<◌, Bool, true, false, ◌&&◌, List, [], ◌∷◌, ◌≡◌, ◌⊎◌, inl, inr, ◌↔◌, arith, Bool-cases,
  if◌then◌else◌, ltb, leb, ◌==◌, Some, Text,
}
use shittim.DomainPolicy.TimeWindow.Weekdays.{Item, day_of}
use shittim.DomainPolicy.TimeWindow.{Weekday, pred, weekday_name, has_weekday, is_inside}

-- The window that starts on a day is open on another at a time: on the day itself from its start
-- to its end, or to midnight if it ends on the next day, or all day if start and end are equal; on
-- the next day until its end, if it ends there.
abbrev pub IsOpen : ℕ → ℕ → Weekday → ℕ → Weekday → Type 0
IsOpen start end today seconds day =
    ((day ≡ today) × ((start ≡ end) ⊎ ((start ≤ seconds) × ((seconds < end) ⊎ (end < start)))))
    ⊎ ((day ≡ pred today) × (end < start) × (seconds < end))

module _ (start end : ℕ) (today : Weekday) (seconds : ℕ) where
  -- The time of day, for a window that starts today, and for one that started the day before.
  abbrev pub IsSameDay : Type 0
  IsSameDay = (start ≡ end) ⊎ ((start ≤ seconds) × ((seconds < end) ⊎ (end < start)))

  abbrev pub IsNextDay : Type 0
  IsNextDay = (end < start) × (seconds < end)

  -- The tests of `is_inside`, for the answers of the set on the day and on the day before.
  tests_iff :
      (on_day on_day_before : Bool)
      → ((if start == end
            then on_day
            else if ltb start end
            then on_day && leb start seconds && ltb seconds end
            else if leb start seconds
            then on_day
            else if ltb seconds end
            then on_day_before
            else false)
          ≡ true)
        ↔ (((on_day ≡ true) × IsSameDay) ⊎ ((on_day_before ≡ true) × IsNextDay))
  tests_iff on_day on_day_before = (
    λ h. elim (Bool-cases (start == end)) [
      | inl all_day ↦ inl (ground arith, inl (ground arith))
      | inr unequal ↦ elim (Bool-cases (ltb start end)) [
        | inl same_day ↦ inl (ground arith, inr (ground arith, inl (ground arith)))
        | inr overnight ↦ elim (Bool-cases (leb start seconds)) [
          | inl before_midnight ↦ inl (ground arith, inr (ground arith, inr (ground arith)))
          | inr after_midnight ↦ inr (ground arith, (ground arith, ground arith))
        ]
      ]
    ],
    λ h. ground arith,
  )

  pub is_inside_iff :
      (weekdays : List Text)
      → (is_inside weekdays start end today seconds ≡ true) ↔ (
          ((has_weekday weekdays (weekday_name today) ≡ true) × IsSameDay)
          ⊎ ((has_weekday weekdays (weekday_name (pred today)) ≡ true) × IsNextDay))
  unfolding is_inside
  is_inside_iff weekdays =
      tests_iff (has_weekday weekdays (weekday_name today))
        (has_weekday weekdays (weekday_name (pred today)))

  pub Some-IsOpen :
      (items : List Item)
      → Some (λ item. IsOpen start end today seconds (day_of item)) items ↔ (
          (Some (λ item. day_of item ≡ today) items × IsSameDay)
          ⊎ (Some (λ item. day_of item ≡ pred today) items × IsNextDay))
  Some-IsOpen [] = (λ s. absurd s, λ s. elim s [ inl a ↦ absurd (a.0) | inr b ↦ absurd (b.0) ])
  Some-IsOpen (item ∷ items) =
      let (out, back) = Some-IsOpen items in
      (
        λ s. elim s [
          | inl (inl here) ↦ inl (inl here.0, here.1)
          | inl (inr here) ↦ inr (inl here.0, (here.1, here.2))
          | inr later ↦ elim (out later) [ inl a ↦ inl (inr a.0, a.1) | inr b ↦ inr (inr b.0, b.1) ]
        ],
        λ s. elim s [
          | inl (inl here, time) ↦ inl (inl (here, time))
          | inl (inr later, time) ↦ inr (back (inl (later, time)))
          | inr (inl here, time) ↦ inl (inr (here, time.0, time.1))
          | inr (inr later, time) ↦ inr (back (inr (later, time)))
        ],
      )
