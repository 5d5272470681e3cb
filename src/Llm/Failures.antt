-- ===== src/Llm/Failures.antt =====
-- backend/failures.py: the failures of a call as values, and the retry policy.
use vectural.Prelude.{ℕ, ◌-◌, Bool, String, leb, ltb, if◌then◌else◌}
use vectural.Prelude.Float.{Floats}

-- `content` carries the kind of a `ContentFailure`; `value_error` is Python's, and `fatal` stands
-- for any other exception of a client, which nothing on the path catches.
pub data Failure : Type 0 where
  quota_exhausted transient value_error fatal : Failure
  content : String → Failure

pub data Result {ℓ} (A : Type ℓ) : Type ℓ where
  ok : A → Result A
  raised : Failure → Result A

module _ (F : Floats) where
  open F use {Float, of_ℕ, mul, pow, le}

  pub record RetryPolicy : Type 0 where
    pub max_attempts : ℕ
    pub base_delay_seconds : Float
    pub multiplier : Float
    pub max_delay_seconds : Float

  unfoldable pub delay_for : RetryPolicy → ℕ → Float
  delay_for p attempt =
      if leb attempt 1
      then of_ℕ 0
      else let delay = mul p.base_delay_seconds (pow p.multiplier (attempt - 2)) in
        if le delay p.max_delay_seconds then delay else p.max_delay_seconds

  unfoldable pub should_retry : RetryPolicy → ℕ → Bool
  should_retry p attempt = ltb attempt p.max_attempts
