-- ===== src/RateLimit/Buckets.antt =====
-- What a call of `allow` (app/api/ratelimit.py) leaves in the buckets.
use ghostmon.Base.{
  ℕ, suc, ◌%◌, ◌<◌, ◌≡◌, ◌↔◌, refl, Bool, true, false, ◌&&◌, String, Option, none, some, List, [],
  ◌∷◌, ◌++◌, length, leb, ◌==◌, str_eq, if◌then◌else◌, arith, Bool-cases, inl, inr,
}
use ghostmon.RateLimit.{
  RateLimiter, bucket, pop_expired, allow, drop_drained, append_hit, set_bucket, undrained,
}

-- whether the dictionary drops the bucket of the key in this call, while the call still uses it
abbrev pub is_forgotten : String → ℕ → ℕ → RateLimiter → Bool
is_forgotten key window now st =
    (suc st.calls % 1024 == 0) && (length (pop_expired window now (bucket st key)) == 0)

-- A call is granted exactly if fewer hits than the limit are left of the last window.
pub allow-granted :
    (key : String) (limit window now : ℕ) (st : RateLimiter)
    → ((allow key limit window now st).0 ≡ true)
      ↔ (length (pop_expired window now (bucket st key)) < limit)
unfolding allow
allow-granted key limit window now st = ((λ h. ground arith), (λ h. ground arith))

-- what is left of a bucket after the call: its hits, and this one if it was granted
abbrev pub kept : Bool → Bool → ℕ → List ℕ → List ℕ
kept forgotten granted now live =
    if forgotten then [] else if granted then live ++ now ∷ [] else live

abbrev value : Option (List ℕ) → List ℕ
value o = elim o [ none ↦ [] | some b ↦ b ]

undrained-value : (c : Bool) (o : Option (List ℕ)) → value (if c then undrained o else o) ≡ value o
undrained-value true none = refl
undrained-value true (some []) = refl
undrained-value true (some (x ∷ xs)) = refl
undrained-value false o = refl

appended :
    (c : Bool) (now : ℕ) (live : List ℕ)
    → value (elim (if c then undrained (some live) else some live) [
      | none ↦ none
      | some b ↦ some (b ++ now ∷ [])
    ])
      ≡ kept (c && (length live == 0)) true now live
appended true now [] = refl
appended true now (x ∷ xs) = ground arith
appended false now live = refl

granted-append :
    (key k : String) (calls now : ℕ) (live : List ℕ) (hits : String → Option (List ℕ))
    → value (append_hit key now (drop_drained calls (set_bucket key live hits)) k) ≡ (
        if str_eq key k
        then kept ((calls % 1024 == 0) && (length live == 0)) true now live
        else value (hits k))
unfolding append_hit drop_drained
granted-append key k calls now live hits = elim (Bool-cases (str_eq key k)) [
  | inl e ↦ rw e (appended (calls % 1024 == 0) now live)
  | inr e ↦ rw e (undrained-value (calls % 1024 == 0) (hits k))
]

refused-kept :
    (key k : String) (calls now : ℕ) (live : List ℕ) (hits : String → Option (List ℕ))
    → value (drop_drained calls (set_bucket key live hits) k) ≡ (
        if str_eq key k
        then kept ((calls % 1024 == 0) && (length live == 0)) false now live
        else value (hits k))
unfolding drop_drained
refused-kept key k calls now live hits = elim (Bool-cases (str_eq key k)) [
  | inl e ↦ rw e (rw (undrained-value (calls % 1024 == 0) (some live)) (emptied live))
  | inr e ↦ rw e (undrained-value (calls % 1024 == 0) (hits k))
]
  where
    emptied : (xs : List ℕ) → xs ≡ kept ((calls % 1024 == 0) && (length xs == 0)) false now xs
    emptied [] = ground arith
    emptied (x ∷ xs) = ground arith

-- A call leaves the buckets of the other keys as they were. In its own bucket it leaves the hits of
-- the last window and, if it is granted, its own hit, except on every 1024th call where no hit of
-- the last window is left: then the bucket is empty, granted or not.
pub allow-bucket :
    (key : String) (limit window now : ℕ) (st : RateLimiter) (k : String)
    → bucket (allow key limit window now st).1 k ≡ (
        if str_eq key k
        then kept
            (is_forgotten key window now st)
            (allow key limit window now st).0
            now
            (pop_expired window now (bucket st key))
        else bucket st k)
unfolding allow bucket
allow-bucket key limit window now st k =
    let live = pop_expired window now (bucket st key) in
    elim (Bool-cases (leb limit (length live))) [
      | inl e ↦ rw (e, bucket) (refused-kept key k (suc st.calls) now live st.hits)
      | inr e ↦ rw (e, bucket) (granted-append key k (suc st.calls) now live st.hits)
    ]
