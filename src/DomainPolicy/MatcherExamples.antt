-- ===== src/DomainPolicy/MatcherExamples.antt =====
-- The theorems on time windows and action patterns at concrete inputs, and tests
-- (rust/crates/domain-policy/src/matcher.rs).
use shittim.Base.{
  ℕ, Bool, true, Option, none, some, List, [], ◌∷◌, ◌≡◌, ◌↔◌, refl, Some, if◌then◌else◌, ok, Text,
  codes, text_eq, pos, is_present, ℤ,
}
use shittim.Contracts.PolicyTypes.{PolicyRuleConditionTimeWindow, monday}
use shittim.DomainPolicy.TimeWindow.{Weekday, tue, time_window_matches}
use shittim.DomainPolicy.TimeWindow.Open.{IsOpen}
use shittim.DomainPolicy.TimeWindow.Weekdays.{day_of}
use shittim.DomainPolicy.TimeWindow.Meaning.{IsReadable, time_window_matches_iff}
use shittim.DomainPolicy.ActionPatterns.{ActionScore, validate_action_patterns, best_action_pattern}
use shittim.DomainPolicy.ActionPatterns.Meaning.{NamesAction}
use shittim.DomainPolicy.ActionPatterns.Best.{best_action_pattern_lem}

-- Tuesday, 01:00, wherever and whenever.
abbrev sample_time : Text → ℤ → Option (Weekday × ℕ)
sample_time zone instant = some (tue, 3600)

abbrev sample_clock : Text → Option ℕ
sample_clock value =
    if text_eq value (codes "22:00:00")
    then some 79200
    else if text_eq value (codes "06:00:00")
    then some 21600
    else none

abbrev monday_night : PolicyRuleConditionTimeWindow
monday_night = record {
  local_end = codes "06:00:00";
  local_start = codes "22:00:00";
  timezone = codes "UTC";
  weekdays = monday ∷ [];
}

-- The night of Monday lasts until Tuesday morning.
monday_night_open : time_window_matches sample_time sample_clock monday_night (pos 0) ≡ ok true
unfolding time_window_matches text_eq
monday_night_open = refl

time_window_matches_iff_example :
    (((answer : Bool) × (time_window_matches sample_time sample_clock monday_night (pos 0)
          ≡ ok answer))
      ↔ ((today : Weekday) × (seconds : ℕ) × (start : ℕ) × (end : ℕ) × IsReadable sample_time
            sample_clock monday_night
            (pos 0)
            today
            seconds
            start
            end))
    × ((time_window_matches sample_time sample_clock monday_night (pos 0) ≡ ok true) ↔ (
        (today : Weekday) × (seconds : ℕ) × (start : ℕ) × (end : ℕ) × IsReadable sample_time
          sample_clock monday_night
          (pos 0)
          today
          seconds
          start
          end
        × Some (λ item. IsOpen start end today seconds (day_of item)) (monday ∷ [])))
time_window_matches_iff_example =
    time_window_matches_iff sample_time sample_clock monday_night (pos 0)

abbrev git_patterns : List Text
git_patterns = codes "git.*" ∷ codes "ls" ∷ []

git_patterns_valid : validate_action_patterns git_patterns ≡ ok tt
unfolding validate_action_patterns text_eq
git_patterns_valid = refl

best_action_pattern_lem_example :
    (best : Option ActionScore) × (best_action_pattern git_patterns (codes "git.x") ≡ ok best)
    × ((is_present best ≡ true) ↔ Some (NamesAction (codes "git.x")) git_patterns)
best_action_pattern_lem_example =
    best_action_pattern_lem git_patterns (codes "git.x") git_patterns_valid
