-- ===== src/DomainPolicy/TimeWindow.antt =====
-- The time window of a policy rule (rust/crates/domain-policy/src/matcher.rs:
-- `time_window_matches`). The parsers of time zones and times and the calendar belong to chrono and
-- chrono_tz: they are the parameters `local_time` and `parse_time`.
pub mod Weekdays
pub mod Open
pub mod Meaning
use shittim.Base.{
  ℕ, Bool, true, false, not, ◌&&◌, Option, List, [], ◌∷◌, ltb, leb, ◌==◌, if◌then◌else◌, is_empty,
  any, map, Result, ok, ◌>>=◌, ◌>>◌, reject_if, ok_or, Text, codes, text_eq, ℤ,
}
use shittim.Contracts.PolicyTypes.{
  PolicyRuleConditionTimeWindowWeekdaysItem, PolicyRuleConditionTimeWindow, weekdays_item_str,
}
use shittim.DomainPolicy.Error.{PolicyErrorCode, unsupported_policy_condition}

-- `chrono::Weekday`
pub data Weekday : Type 0 where
  mon tue wed thu fri sat sun : Weekday

-- `Weekday::pred`
unfoldable pub pred : Weekday → Weekday
pred mon = sun
pred tue = mon
pred wed = tue
pred thu = wed
pred fri = thu
pred sat = fri
pred sun = sat

unfoldable pub weekday_name : Weekday → Text
weekday_name mon = codes "monday"
weekday_name tue = codes "tuesday"
weekday_name wed = codes "wednesday"
weekday_name thu = codes "thursday"
weekday_name fri = codes "friday"
weekday_name sat = codes "saturday"
weekday_name sun = codes "sunday"

unfoldable pub previous_weekday_name : Weekday → Text
unfolding pred weekday_name
previous_weekday_name weekday = weekday_name (pred weekday)

-- `weekdays.contains(name)`
unfoldable pub has_weekday : List Text → Text → Bool
unfolding text_eq
has_weekday weekdays name = any (λ weekday. text_eq weekday name) weekdays

-- The loop that fills the set and refuses a duplicate
unfoldable pub insert_weekdays :
    List Text → List PolicyRuleConditionTimeWindowWeekdaysItem → Result PolicyErrorCode (List Text)
unfolding has_weekday weekdays_item_str
insert_weekdays weekdays [] = ok weekdays
insert_weekdays weekdays (item ∷ items) = do
  reject_if (has_weekday weekdays (weekdays_item_str item)) unsupported_policy_condition
  insert_weekdays (weekdays_item_str item ∷ weekdays) items

-- The tests on the local time, all times in seconds from midnight
unfoldable pub is_inside : List Text → ℕ → ℕ → Weekday → ℕ → Bool
unfolding has_weekday weekday_name previous_weekday_name
is_inside weekdays start end weekday seconds =
    if start == end
    then has_weekday weekdays (weekday_name weekday)
    else if ltb start end
    then has_weekday weekdays (weekday_name weekday) && leb start seconds && ltb seconds end
    else if leb start seconds
    then has_weekday weekdays (weekday_name weekday)
    else if ltb seconds end
    then has_weekday weekdays (previous_weekday_name weekday)
    else false

-- `local_time timezone instant` is the weekday and the time, in seconds from midnight, of an
-- instant in a time zone, if the zone exists; `parse_time` reads `%H:%M:%S`.
module _ (local_time : Text → ℤ → Option (Weekday × ℕ)) (parse_time : Text → Option ℕ) where
  unfoldable pub parse_local_time : Text → Result PolicyErrorCode ℕ
  parse_local_time value = ok_or (parse_time value) unsupported_policy_condition

  unfoldable pub time_window_matches :
      PolicyRuleConditionTimeWindow → ℤ → Result PolicyErrorCode Bool
  unfolding insert_weekdays parse_local_time is_inside
  time_window_matches window evaluation_instant = do
    now ← ok_or (local_time window.timezone evaluation_instant) unsupported_policy_condition
    reject_if (is_empty window.weekdays) unsupported_policy_condition
    weekdays ← insert_weekdays [] window.weekdays
    start ← parse_local_time window.local_start
    end ← parse_local_time window.local_end
    ok (is_inside weekdays start end now.0 now.1)
