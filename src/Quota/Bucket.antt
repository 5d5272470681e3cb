-- ===== src/Quota/Bucket.antt =====
-- backend/quota/governor.py: `TokenBucket`. Moments and amounts are floats.
pub mod Bounds
use vectural.Prelude.{ℕ, Bool, true, false, Option, none, some, not, if◌then◌else◌}
use vectural.Prelude.Float.{Floats}

module _ (F : Floats) where
  open F use {Float, of_ℕ, add, sub, mul, div, le}

  pub record TokenBucket : Type 0 where
    pub capacity : Float
    pub rate : Float
    pub tokens : Float
    pub last : Option Float

  -- `__init__` with `start_full`
  unfoldable pub new : Float → Float → Bool → TokenBucket
  new capacity refill_per_second start_full = record {
    capacity = capacity;
    rate = refill_per_second;
    tokens = if start_full then capacity else of_ℕ 0;
    last = none;
  }

  unfoldable pub per_day : Float → TokenBucket
  unfolding new
  per_day daily_amount = new daily_amount (div daily_amount (of_ℕ 86400)) true

  -- Python's `max(0.0, x)` and `min(x, y)`
  positive_part : Float → Float
  positive_part x = if le x (of_ℕ 0) then of_ℕ 0 else x

  least : Float → Float → Float
  least x y = if le x y then x else y

  refill_since : Option Float → Float → TokenBucket → TokenBucket
  unfolding positive_part least
  refill_since none now b = record b { last = some now }
  refill_since (some last) now b = record b {
    tokens = least b.capacity (add b.tokens (mul (positive_part (sub now last)) b.rate));
    last = some now;
  }

  -- `_refill`
  unfoldable pub refill : Float → TokenBucket → TokenBucket
  unfolding refill_since
  refill now b = refill_since b.last now b

  unfoldable pub try_consume : Float → Float → TokenBucket → Bool × TokenBucket
  unfolding refill
  try_consume amount now b =
      let b' = refill now b in
      if le amount b'.tokens
      then (true, record b' { tokens = sub b'.tokens amount })
      else (false, b')

  unfoldable pub refill_full : TokenBucket → TokenBucket
  refill_full b = record b { tokens = b.capacity; last = none }
