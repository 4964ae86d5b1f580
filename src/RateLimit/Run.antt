-- ===== src/RateLimit/Run.antt =====
-- A sequence of calls on one limiter, with the limit that each key has, and what it grants.
use ghostmon.Base.{
  str_eq_refl, ℕ, suc, ◌+◌, ◌%◌, ◌≤◌, ◌<◌, ◌≡◌, refl, false, String, List, [], ◌∷◌, ◌++◌, length,
  length-append, ltb, ◌==◌, str_eq, if◌then◌else◌, arith, Bool-cases, inl, inr, subst, ◌∙◌, eq_iff,
}
use ghostmon.RateLimit.{RateLimiter, new_limiter, bucket, pop_expired, allow}
use ghostmon.RateLimit.Buckets.{allow-bucket, allow-granted, is_forgotten}

pub record Call : Type 0 where
  pub key : String
  pub at : ℕ

-- the limiter, and the calls that it granted, the latest last
pub record Served : Type 0 where
  pub limiter : RateLimiter
  pub granted : List Call

module _ (limit : String → ℕ) (window : ℕ) where
  abbrev pub serve : Call → Served → Served
  serve c s =
      let answer = allow c.key (limit c.key) window c.at s.limiter in
      record { limiter = answer.1; granted = if answer.0 then s.granted ++ c ∷ [] else s.granted }

  abbrev pub serve_all : List Call → Served → Served
  serve_all [] s = s
  serve_all (c ∷ cs) s = serve_all cs (serve c s)

-- the times of the calls of one key
abbrev pub times_of : String → List Call → List ℕ
times_of k [] = []
times_of k (c ∷ cs) = let rest = times_of k cs in if str_eq c.key k then c.at ∷ rest else rest

-- the clock does not go back, from `t` on; and the last time that it shows
abbrev pub Forward : ℕ → List Call → Type 0
Forward t [] = Unit
Forward t (c ∷ cs) = (t ≤ c.at) × Forward c.at cs

abbrev pub clock : ℕ → List Call → ℕ
clock t [] = t
clock t (c ∷ cs) = clock c.at cs

times_of-append :
    (k : String) (cs : List Call) (c : Call)
    → times_of k (cs ++ c ∷ [])
      ≡ (if str_eq c.key k then times_of k cs ++ c.at ∷ [] else times_of k cs)
times_of-append k [] c = ground arith
times_of-append k (x ∷ xs) c = ground (arith, times_of-append k xs c)

pop-pop :
    (window s t : ℕ) (xs : List ℕ)
    → s ≤ t
    → pop_expired window t (pop_expired window s xs) ≡ pop_expired window t xs
unfolding pop_expired
pop-pop window s t [] le = refl
pop-pop window s t (x ∷ xs) le = ground (arith, pop-pop window s t xs le)

-- what is left of a bucket after one more hit at its end
abbrev added : ℕ → ℕ → ℕ → List ℕ → List ℕ
added window t y [] = if ltb (y + window) t then [] else y ∷ []
added window t y (x ∷ xs) = (x ∷ xs) ++ y ∷ []

pop-append :
    (window t y : ℕ) (xs : List ℕ)
    → pop_expired window t (xs ++ y ∷ []) ≡ added window t y (pop_expired window t xs)
unfolding pop_expired
pop-append window t y [] = refl
pop-append window t y (x ∷ xs) = ground (arith, pop-append window t y xs)

length-added : (window t y : ℕ) (xs : List ℕ) → length (added window t y xs) ≤ suc (length xs)
length-added window t y [] = ground arith
length-added window t y (x ∷ xs) = omega (arith, length-append (x ∷ xs) (y ∷ []))

length-pop : (window t : ℕ) (xs : List ℕ) → length (pop_expired window t xs) ≤ length xs
unfolding pop_expired
length-pop window t [] = omega arith
length-pop window t (x ∷ xs) = ground (arith, length-pop window t xs)

allow-calls :
    (key : String) (l window now : ℕ) (st : RateLimiter)
    → (allow key l window now st).1.calls ≡ suc st.calls
unfolding allow
allow-calls key l window now st = ground arith

module _ (limit : String → ℕ) (window : ℕ) where
  -- from `t` on, the buckets count the granted calls, which keep to the limits
  abbrev Remembers : ℕ → Served → Type 0
  Remembers t s =
      (k : String) (u : ℕ)
      → t ≤ u
      → (pop_expired window u (bucket s.limiter k) ≡ pop_expired window u (times_of k s.granted))
        × (length (pop_expired window u (times_of k s.granted)) ≤ limit k)

  -- `Remembers`, of one key at one moment
  abbrev Counts : Served → String → ℕ → Type 0
  Counts s k u =
      (pop_expired window u (bucket s.limiter k) ≡ pop_expired window u (times_of k s.granted))
      × (length (pop_expired window u (times_of k s.granted)) ≤ limit k)

  serve-other :
      (c : Call) (t : ℕ) (s : Served) (k : String) (u : ℕ)
      → str_eq c.key k ≡ false
      → Counts s k u
      → Counts (serve limit window c s) k u
  serve-other c t s k u other old =
      rw (allow-bucket c.key (limit c.key) window c.at s.limiter k, other)
        (elim (Bool-cases (allow c.key (limit c.key) window c.at s.limiter).0) [
          | inl granted ↦ rw (granted, times_of-append, other) old
          | inr refused ↦ rw refused old
        ])

  serve-own :
      (c : Call) (t : ℕ) (s : Served) (u : ℕ)
      → t ≤ c.at
      → c.at ≤ u
      → (suc s.limiter.calls % 1024 == 0) ≡ false
      → Remembers t s
      → Counts (serve limit window c s) c.key u
  serve-own c t s u le later fresh old =
      let live = pop_expired window c.at (bucket s.limiter c.key) in
      let counted : is_forgotten c.key window c.at s.limiter ≡ false = rw fresh refl in
      let (same, fits) = old c.key u (omega arith) in
      let same_now = (old c.key c.at le).0 in
      let popped = pop-pop window c.at u (bucket s.limiter c.key) later in
      rw (allow-bucket c.key (limit c.key) window c.at s.limiter c.key, counted, str_eq_refl)
        (elim (Bool-cases (allow c.key (limit c.key) window c.at s.limiter).0) [
          | inr refused ↦ rw refused (popped ∙ same, fits)
          | inl granted ↦
              let below = (allow-granted c.key (limit c.key) window c.at s.limiter).0 granted in
              let shorter =
                length-pop window u (pop_expired window c.at (times_of c.key s.granted)) in
              rw (granted, times_of-append, str_eq_refl)
                (ground (
                  arith,
                  pop-append window u c.at live,
                  pop-append window u c.at (times_of c.key s.granted),
                  popped,
                  same,
                  same_now,
                  below,
                  shorter,
                  pop-pop window c.at u (times_of c.key s.granted) later,
                  length-added window u c.at (pop_expired window u (times_of c.key s.granted)),
                ))
        ])

  serve-Remembers :
      (c : Call) (t : ℕ) (s : Served)
      → t ≤ c.at
      → (suc s.limiter.calls % 1024 == 0) ≡ false
      → Remembers t s
      → Remembers c.at (serve limit window c s)
  serve-Remembers c t s le fresh old k u later = elim (Bool-cases (str_eq c.key k)) [
    | inr other ↦ serve-other c t s k u other (old k u (omega arith))
    | inl mine ↦
        subst (λ z. Counts (serve limit window c s) z u) ((eq_iff c.key k).0 mine)
          (serve-own c t s u le later fresh old)
  ]

  serve_all-Remembers :
      (cs : List Call) (t : ℕ) (s : Served)
      → Forward t cs
      → s.limiter.calls + length cs < 1024
      → Remembers t s
      → Remembers (clock t cs) (serve_all limit window cs s)
  serve_all-Remembers [] t s f few old = old
  serve_all-Remembers (c ∷ cs) t s f few old =
      serve_all-Remembers cs c.at (serve limit window c s) f.1
        (rw (allow-calls c.key (limit c.key) window c.at s.limiter) (omega arith))
        (serve-Remembers c t s f.0 (ground arith) old)

  -- In the first 1023 calls of a limiter, whatever their keys, as long as the clock does not go back:
  -- at every later moment, of the calls of a key that were granted since the oldest one that is still
  -- in the window, there are no more than the limit of that key.
  pub window_limit :
      (cs : List Call) (k : String) (now : ℕ)
      → Forward 0 cs
      → length cs < 1024
      → clock 0 cs ≤ now
      → length (
          pop_expired window now (
            times_of k
              (serve_all limit window cs (record { limiter = new_limiter; granted = [] })).granted))
        ≤ limit k
  unfolding new_limiter bucket pop_expired
  window_limit cs k now f few later =
      (serve_all-Remembers cs 0 (record { limiter = new_limiter; granted = [] }) f
        (omega (arith, few)) (λ j u from. (refl, omega arith)) k now later).1
