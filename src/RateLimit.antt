-- ===== src/RateLimit.antt =====
-- app/api/ratelimit.py: the sliding-window limiter of logins and of ingestion.
pub mod Buckets
pub mod Forgotten
mod Tests
pub mod Run
use Prim.Native.String.{◌++◌ as str_append}
use ghostmon.Base.{
  ℕ, suc, ◌+◌, ◌%◌, Bool, true, false, ◌||◌, not, String, Option, none, some, List, [], ◌∷◌, ◌++◌,
  length, leb, ltb, ◌==◌, str_eq, if◌then◌else◌, seconds,
}

abbrev pub window_seconds : ℕ
window_seconds = 60

-- `_hits` and `_calls`: a bucket for each key that the dictionary has
pub record RateLimiter : Type 0 where
  pub hits : String → Option (List ℕ)
  pub calls : ℕ

unfoldable pub new_limiter : RateLimiter
new_limiter = record { hits = λ key. none; calls = 0 }

-- `_hits[key]` of the `defaultdict`
unfoldable pub bucket : RateLimiter → String → List ℕ
bucket st key = elim (st.hits key) [ none ↦ [] | some b ↦ b ]

-- The hits that are left when those before `now - window` are popped from the left.
unfoldable pub pop_expired : ℕ → ℕ → List ℕ → List ℕ
pop_expired window now [] = []
pop_expired window now (hit ∷ hits) =
    let rest = pop_expired window now hits in if ltb (hit + window) now then rest else hit ∷ hits

abbrev pub set_bucket : String → List ℕ → (String → Option (List ℕ)) → String → Option (List ℕ)
set_bucket key b hits k = if str_eq key k then some b else hits k

abbrev pub undrained : Option (List ℕ) → Option (List ℕ)
undrained none = none
undrained (some []) = none
undrained (some (hit ∷ hits)) = some (hit ∷ hits)

-- `del self._hits[k]` of every empty bucket, on every 1024th call
unfoldable pub drop_drained : ℕ → (String → Option (List ℕ)) → String → Option (List ℕ)
drop_drained calls hits k = if calls % 1024 == 0 then undrained (hits k) else hits k

-- `bucket.append`: the dictionary has the change if it still has the bucket
unfoldable pub append_hit : String → ℕ → (String → Option (List ℕ)) → String → Option (List ℕ)
append_hit key now hits k =
    if str_eq key k then elim (hits k) [ none ↦ none | some b ↦ some (b ++ now ∷ []) ] else hits k

unfoldable pub allow : String → ℕ → ℕ → ℕ → RateLimiter → Bool × RateLimiter
unfolding bucket pop_expired drop_drained append_hit
allow key limit window now st =
    let live = pop_expired window now (bucket st key) in
    let calls = suc st.calls in
    let hits = drop_drained calls (set_bucket key live st.hits) in
    if leb limit (length live)
    then (false, record { hits = hits; calls = calls })
    else (true, record { hits = append_hit key now hits; calls = calls })

-- The settings and the parts of a request that the limiter reads.
pub record Settings : Type 0 where
  pub rate_limit_login_per_minute : ℕ
  pub rate_limit_ingest_per_minute : ℕ

pub record Request : Type 0 where
  pub method : String
  pub path : String
  pub client : Option String

unfoldable pub limit_for : Settings → Request → ℕ
limit_for settings request =
    if not (str_eq request.method "POST")
    then 0
    else if str_eq request.path "/api/auth/login" || str_eq request.path "/login"
    then settings.rate_limit_login_per_minute
    else if str_eq request.path "/api/ingest"
    then settings.rate_limit_ingest_per_minute
    else 0

pub data Answer : Type 0 where
  -- 429, with the seconds of the header Retry-After
  too_many_requests : ℕ → Answer
  call_next : Answer

unfoldable pub client_key : Request → String
client_key request =
    str_append request.path
      (str_append ":" (elim request.client [ none ↦ "unknown" | some host ↦ host ]))

-- `_rate_limit`
unfoldable pub rate_limit : Settings → Request → ℕ → RateLimiter → Answer × RateLimiter
unfolding limit_for client_key allow
rate_limit settings request now st =
    let limit = limit_for settings request in
    if ltb 0 limit
    then (let (allowed, st') = allow (client_key request) limit (seconds window_seconds) now st in
        (if allowed then call_next else too_many_requests window_seconds, st'))
    else (call_next, st)
