-- ===== src/RateLimit/Forgotten.antt =====
-- The call on which the limiter drops the bucket that it is about to fill.
use ghostmon.Base.{str_eq_refl, ℕ, suc, ◌%◌, ◌<◌, ◌≡◌, refl, true, String, [], arith}
use ghostmon.RateLimit.{RateLimiter, bucket, pop_expired, allow}
use ghostmon.RateLimit.Buckets.{allow-bucket, allow-granted, is_forgotten}

-- On a 1024th call of a limiter, a key that has no hit left in the last window is granted under any
-- limit but 0, yet not counted: the next call of the key, at whatever moment, is granted too, be the
-- limit 1 and the two calls in the same instant.
pub forgotten_hit :
    (key : String) (limit window now next : ℕ) (st : RateLimiter)
    → suc st.calls % 1024 ≡ 0
    → pop_expired window now (bucket st key) ≡ []
    → 0 < limit
    → ((allow key limit window now st).0 ≡ true)
      × ((allow key limit window next (allow key limit window now st).1).0 ≡ true)
unfolding pop_expired
forgotten_hit key limit window now next st c e l =
    let none_left : is_forgotten key window now st ≡ true = rw e (ground (arith, c)) in
    let empty : bucket (allow key limit window now st).1 key ≡ [] =
      rw (allow-bucket key limit window now st key, str_eq_refl, none_left) refl in
    (
      (allow-granted key limit window now st).1 (rw e l),
      (allow-granted key limit window next (allow key limit window now st).1).1
          (rw (empty, pop_expired) l),
    )
