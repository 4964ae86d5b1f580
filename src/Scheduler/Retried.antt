-- ===== src/Scheduler/Retried.antt =====
-- Which probes a job makes, and when its final outcome is UP.
use ghostmon.Base.{
  ℕ, zero, suc, ◌≡◌, refl, Bool, false, ◌||◌, List, [], ◌∷◌, arith, if◌then◌else◌, Bool-cases, inl,
  inr,
}
use ghostmon.Model.Monitor.{Monitor}
use ghostmon.Scheduler.Retries.{Attempt, is_up, last_attempt, retry, probe_with_retries}

-- a list up to its first attempt that is UP
abbrev pub until_up : List Attempt → List Attempt
until_up [] = []
until_up (a ∷ rest) = let shorter = until_up rest in if is_up a then a ∷ [] else a ∷ shorter

module _ (run_probe : ℕ → Attempt) where
  -- the outcomes of `k` runs, from the nth on
  abbrev pub runs : ℕ → ℕ → List Attempt
  runs n zero = []
  runs n (suc k) = run_probe n ∷ runs (suc n) k

  -- whether one of `k` runs is UP, from the nth on
  abbrev pub some_up : ℕ → ℕ → Bool
  some_up n zero = false
  some_up n (suc k) = is_up (run_probe n) || some_up (suc n) k

  retry-runs : (left n : ℕ) → retry run_probe left n ≡ until_up (runs n left)
  unfolding retry
  retry-runs zero n = refl
  retry-runs (suc left) n = ground (arith, retry-runs left (suc n))

  -- The attempts of a job are the runs of the probe in order, one and the monitor's retries at most,
  -- up to the first that is UP.
  pub probe_with_retries_lem :
      (m : Monitor) → probe_with_retries run_probe m ≡ until_up (runs 0 (suc m.retries))
  unfolding probe_with_retries
  probe_with_retries_lem m = ground (arith, retry-runs m.retries 1)

  last-runs :
      (first : Attempt) (k n : ℕ)
      → is_up first ≡ false
      → is_up (last_attempt first (until_up (runs n k))) ≡ some_up n k
  last-runs first zero n h = h
  last-runs first (suc k) n h = elim (Bool-cases (is_up (run_probe n))) [
    | inl e ↦ rw (e, until_up) (ground (arith, e))
    | inr e ↦ rw (e, until_up) (last-runs (run_probe n) k (suc n) e)
  ]

  -- The final outcome is UP exactly if one of the runs that the monitor's retries allow is UP.
  pub final_up :
      (m : Monitor)
      → is_up (last_attempt (run_probe 0) (probe_with_retries run_probe m))
        ≡ some_up 0 (suc m.retries)
  final_up m = elim (Bool-cases (is_up (run_probe 0))) [
    | inl e ↦ rw (probe_with_retries_lem m, e) (ground (arith, e))
    | inr e ↦ rw (probe_with_retries_lem m, e) (last-runs (run_probe 0) m.retries 1 e)
  ]
