-- ===== src/DomainPolicy/TimeWindow/Weekdays.antt =====
-- The weekdays of a time window as a set (rust/crates/domain-policy/src/matcher.rs).
use shittim.Base.{
  true, false, List, [], ◌∷◌, ◌≡◌, ◌⊎◌, inl, inr, ◌↔◌, refl, sym, arith, Bool-cases, All, Some, ok,
  reject_if, and_then-eq-ok, Text, text_eq,
}
use shittim.Contracts.PolicyTypes.{
  PolicyRuleConditionTimeWindowWeekdaysItem, weekdays_item_str, monday, tuesday, wednesday,
  thursday, friday, saturday, sunday,
}
use shittim.DomainPolicy.Error.{unsupported_policy_condition}
use shittim.DomainPolicy.TimeWindow.{
  Weekday, mon, tue, wed, thu, fri, sat, sun, weekday_name, has_weekday, insert_weekdays,
}

abbrev pub day_of : PolicyRuleConditionTimeWindowWeekdaysItem → Weekday
day_of monday = mon
day_of tuesday = tue
day_of wednesday = wed
day_of thursday = thu
day_of friday = fri
day_of saturday = sat
day_of sunday = sun

-- No item comes twice.
abbrev pub IsDistinct : List PolicyRuleConditionTimeWindowWeekdaysItem → Type 0
IsDistinct [] = Unit
IsDistinct (item ∷ items) = (Some (λ other. other ≡ item) items → ⊥) × IsDistinct items

item_name_iff :
    (item : PolicyRuleConditionTimeWindowWeekdaysItem) (day : Weekday)
    → (text_eq (weekdays_item_str item) (weekday_name day) ≡ true) ↔ (day_of item ≡ day)
unfolding text_eq weekdays_item_str weekday_name
item_name_iff item day = (λ h. ground arith, λ h. ground arith)

item_str_iff :
    (item other : PolicyRuleConditionTimeWindowWeekdaysItem)
    → (text_eq (weekdays_item_str item) (weekdays_item_str other) ≡ true) ↔ (item ≡ other)
unfolding text_eq weekdays_item_str
item_str_iff item other = (λ h. ground arith, λ h. ground arith)

abbrev pub Item : Type 0
Item = PolicyRuleConditionTimeWindowWeekdaysItem

-- None of the items is in the set.
abbrev pub AreNew : List Text → List Item → Type 0
AreNew weekdays items = All (λ item. has_weekday weekdays (weekdays_item_str item) ≡ false) items

pub AreNew-empty : (items : List Item) → AreNew [] items
unfolding has_weekday
AreNew-empty [] = tt
AreNew-empty (item ∷ items) = (refl, AreNew-empty items)

AreNew-split :
    (weekdays : List Text) (item : Item) (items : List Item)
    → AreNew (weekdays_item_str item ∷ weekdays) items
    → (Some (λ other. other ≡ item) items → ⊥) × AreNew weekdays items
unfolding has_weekday
AreNew-split weekdays item [] a = (λ s. s, tt)
AreNew-split weekdays item (other ∷ items) a =
    let (distinct, new) = AreNew-split weekdays item items a.1 in
    let (_, same_str) = item_str_iff item other in
    (
      λ s. elim s [
        | inl e ↦ absurd (ground (arith, a.0, same_str (sym e)))
        | inr later ↦ distinct later
      ],
      (ground (arith, a.0), new),
    )

AreNew-join :
    (weekdays : List Text) (item : Item) (items : List Item)
    → (Some (λ other. other ≡ item) items → ⊥)
    → AreNew weekdays items
    → AreNew (weekdays_item_str item ∷ weekdays) items
unfolding has_weekday
AreNew-join weekdays item [] distinct a = tt
AreNew-join weekdays item (other ∷ items) distinct a = (
  elim (Bool-cases (text_eq (weekdays_item_str item) (weekdays_item_str other))) [
    | inl same ↦ absurd (distinct (inl (sym ((item_str_iff item other).0 same))))
    | inr unequal ↦ rw unequal (a.0)
  ],
  AreNew-join weekdays item items (λ s. distinct (inr s)) a.1,
)

pub insert_weekdays_sound :
    (weekdays : List Text) (items : List Item) (names : List Text)
    → insert_weekdays weekdays items ≡ ok names
    → IsDistinct items × AreNew weekdays items
unfolding insert_weekdays
insert_weekdays_sound weekdays [] names h = (tt, tt)
insert_weekdays_sound weekdays (item ∷ items) names h =
    let (_, new, h1) =
      and_then-eq-ok
        (reject_if (has_weekday weekdays (weekdays_item_str item)) unsupported_policy_condition) _
        h in
    let (distinct, later) =
      insert_weekdays_sound (weekdays_item_str item ∷ weekdays) items names h1 in
    let (fresh, others) = AreNew-split weekdays item items later in
    ((fresh, distinct), (ground arith, others))

pub insert_weekdays_complete :
    (weekdays : List Text) (items : List Item)
    → IsDistinct items
    → AreNew weekdays items
    → (names : List Text) × (insert_weekdays weekdays items ≡ ok names)
unfolding insert_weekdays
insert_weekdays_complete weekdays [] d a = (weekdays, refl)
insert_weekdays_complete weekdays (item ∷ items) d a =
    let (names, h) =
      insert_weekdays_complete (weekdays_item_str item ∷ weekdays) items d.1
        (AreNew-join weekdays item items d.0 a.1) in
    (names, rw (a.0) h)

-- The set holds the days that it held and those of the items.
pub has_weekday-insert_weekdays :
    (weekdays : List Text) (items : List Item) (names : List Text) (day : Weekday)
    → insert_weekdays weekdays items ≡ ok names
    → (has_weekday names (weekday_name day) ≡ true)
      ↔ ((has_weekday weekdays (weekday_name day) ≡ true) ⊎ Some (λ item. day_of item ≡ day) items)
unfolding insert_weekdays has_weekday
has_weekday-insert_weekdays weekdays [] names day h =
    let same : weekdays ≡ names = ground arith in
    rw (← same) (λ e. inl e, λ s. elim s [ inl e ↦ e | inr none_here ↦ absurd none_here ])
has_weekday-insert_weekdays weekdays (item ∷ items) names day h =
    let (_, new, h1) =
      and_then-eq-ok
        (reject_if (has_weekday weekdays (weekdays_item_str item)) unsupported_policy_condition) _
        h in
    let (out, back) =
      has_weekday-insert_weekdays (weekdays_item_str item ∷ weekdays) items names day h1 in
    let (name_day, day_name) = item_name_iff item day in
    (
      λ e. elim (out e) [
        | inr later ↦ inr (inr later)
        | inl here ↦ elim (Bool-cases (text_eq (weekdays_item_str item) (weekday_name day))) [
          | inl same ↦ inr (inl (name_day same))
          | inr other ↦ inl (rw other at here)
        ]
      ],
      λ s. elim s [
        | inl before ↦ back (inl (ground arith))
        | inr (inl same) ↦ back (inl (ground (arith, day_name same)))
        | inr (inr later) ↦ back (inr later)
      ],
    )
