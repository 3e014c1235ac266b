-- ===== src/DomainPolicy/RateLimit.antt =====
-- The rate-limit port of the policy matcher (rust/crates/domain-policy/src/rate_limit.rs): the
-- interface between the pure matcher and the authority that keeps the consumptions.
use shittim.Base.{Text, ℤ, Result, err}
use shittim.DomainPolicy.Error.{PolicyErrorCode, rate_limit_failed}

-- `RateLimitKey(pub String)` is its text.
abbrev pub RateLimitKey : Type 0
RateLimitKey = Text

-- The instant is an integer number of microseconds.
pub record RateLimitRequest : Type 0 where
  pub rule_id : Text
  pub rule_revision : ℤ
  pub key : RateLimitKey
  pub window_seconds : ℤ
  pub count : ℤ
  pub instant : ℤ

pub data RateLimitPreview : Type 0 where
  available exceeded : RateLimitPreview

pub data RateLimitConsume : Type 0 where
  consumed exceeded : RateLimitConsume

-- The trait over the state that the authority keeps. `preview` does not change it.
pub record RateLimitPort (S : Type 0) : Type 0 where
  pub preview : RateLimitRequest → S → Result PolicyErrorCode RateLimitPreview
  pub check_and_consume : RateLimitRequest → S → Result PolicyErrorCode RateLimitConsume × S

-- `RejectRateLimits`
abbrev pub reject_rate_limits : (S : Type 0) → RateLimitPort S
reject_rate_limits S = record {
  preview = λ request s. err rate_limit_failed;
  check_and_consume = λ request s. (err rate_limit_failed, s);
}
