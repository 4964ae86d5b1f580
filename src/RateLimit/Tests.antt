-- ===== src/RateLimit/Tests.antt =====
-- The limiter's theorems at concrete calls.
use ghostmon.Base.{
  ℕ, ◌≤◌, ◌<◌, ◌≡◌, ◌↔◌, refl, true, String, List, [], ◌∷◌, length, arith, Option, map,
}
use ghostmon.RateLimit.{
  RateLimiter, new_limiter, bucket, pop_expired, allow, Settings, Request, rate_limit, Answer,
  too_many_requests, call_next,
}
use ghostmon.RateLimit.Buckets.{allow-granted}
use ghostmon.RateLimit.Run.{Call, serve_all, times_of, window_limit}
use ghostmon.RateLimit.Forgotten.{forgotten_hit}

abbrev settings : Settings
settings = record { rate_limit_login_per_minute = 2; rate_limit_ingest_per_minute = 0 }

abbrev login : Request
login = record { method = "POST"; path = "/login"; client = Option.some "10.0.0.1" }

abbrev answers : List ℕ → RateLimiter → List Answer
answers [] st = []
answers (t ∷ ts) st = let (a, st') = rate_limit settings login t st in a ∷ answers ts st'

-- three logins in a second and one after a minute
logins_run :
    answers (0 ∷ 500_000 ∷ 1_000_000 ∷ 60_400_000 ∷ []) new_limiter
    ≡ call_next ∷ call_next ∷ too_many_requests 60 ∷ call_next ∷ []
unfolding rate_limit new_limiter allow
logins_run = refl

abbrev two_hits : RateLimiter
two_hits = (allow "a" 2 60 10 (allow "a" 2 60 5 new_limiter).1).1

allow-granted_example :
    ((allow "a" 2 60 20 two_hits).0 ≡ true) ↔ (length (pop_expired 60 20 (bucket two_hits "a")) < 2)
allow-granted_example = allow-granted "a" 2 60 20 two_hits

abbrev calls : List Call
calls = map (λ t. record { key = "a"; at = t }) (5 ∷ 10 ∷ 20 ∷ 70 ∷ [])

abbrev two : String → ℕ
two key = 2

window_limit_example :
    length (
      pop_expired 60 71 (
        times_of "a"
          (serve_all two 60 calls (record { limiter = new_limiter; granted = [] })).granted))
    ≤ 2
window_limit_example =
    window_limit two 60 calls "a" 71 (omega arith, (omega arith, (omega arith, (omega arith, tt))))
      (omega arith) (omega arith)

abbrev at_1023 : RateLimiter
at_1023 = record { hits = λ key. Option.none; calls = 1023 }

forgotten_hit_example :
    ((allow "a" 1 60 10 at_1023).0 ≡ true)
    × ((allow "a" 1 60 10 (allow "a" 1 60 10 at_1023).1).0 ≡ true)
unfolding bucket pop_expired
forgotten_hit_example = forgotten_hit "a" 1 60 10 10 at_1023 refl refl (omega arith)
