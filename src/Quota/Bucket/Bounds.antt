-- ===== src/Quota/Bucket/Bounds.antt =====
-- The token bucket of backend/quota/governor.py never holds more than its capacity.
use vectural.Prelude.{Bool, true, Option, none, some, ◌≡◌, List, [], ◌∷◌, Bool-cases, inl, inr}
use vectural.Prelude.Float.{Floats, Laws}
use vectural.Quota.Bucket.{TokenBucket, refill_since, refill, try_consume, least}

module _ (F : Floats) where
  abbrev pub IsBounded : TokenBucket F → Type 0
  IsBounded b = F.le b.tokens b.capacity ≡ true

  -- The answers to a series of requests, each an amount and a moment, and the bucket after them.
  pub consume_all : List (F.Float × F.Float) → TokenBucket F → List Bool × TokenBucket F
  consume_all [] b = ([], b)
  consume_all ((amount, now) ∷ rest) b =
      let (done, b') = try_consume F amount now b in
      let (answers, b'') = consume_all rest b' in (done ∷ answers, b'')

  abbrev pub AmountsPositive : List (F.Float × F.Float) → Type 0
  AmountsPositive [] = Unit
  AmountsPositive ((amount, now) ∷ rest) = (F.le (F.of_ℕ 0) amount ≡ true) × AmountsPositive rest

  module _ (L : Laws F) where
    least-le : (x y : F.Float) → F.le (least F x y) x ≡ true
    unfolding least
    least-le x y = elim (Bool-cases (F.le x y)) [
      | inl e ↦ rw e (L.le_refl x)
      | inr e ↦ rw e (L.le_total x y e)
    ]

    refill_since-IsBounded :
        (last : Option F.Float) (now : F.Float) (b : TokenBucket F)
        → IsBounded b
        → IsBounded (refill_since F last now b)
    unfolding refill_since
    refill_since-IsBounded none now b h = h
    refill_since-IsBounded (some last) now b h = least-le b.capacity _

    try_consume-IsBounded :
        (amount now : F.Float) (b : TokenBucket F)
        → F.le (F.of_ℕ 0) amount ≡ true
        → IsBounded b
        → IsBounded (try_consume F amount now b).1
    unfolding try_consume refill
    try_consume-IsBounded amount now b pos h =
        let b' = refill F now b in
        let full : IsBounded b' = refill_since-IsBounded b.last now b h in
        elim (Bool-cases (F.le amount b'.tokens)) [
          | inl e ↦ rw e (L.le_trans _ _ _ (L.sub_le b'.tokens amount pos) full)
          | inr e ↦ rw e full
        ]

    -- From a bucket that holds at most its capacity, after any series of requests for amounts that
    -- are not negative, at any moments (a clock that goes back included), it still does, and its
    -- capacity is the same.
    pub consume_all-IsBounded :
        (requests : List (F.Float × F.Float)) (b : TokenBucket F)
        → AmountsPositive requests
        → IsBounded b
        → IsBounded (consume_all requests b).1
    unfolding consume_all
    consume_all-IsBounded [] b pos h = h
    consume_all-IsBounded ((amount, now) ∷ rest) b pos h =
        consume_all-IsBounded rest _ pos.1 (try_consume-IsBounded amount now b pos.0 h)
