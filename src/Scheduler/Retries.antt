-- ===== src/Scheduler/Retries.antt =====
-- `_probe_with_retries` of app/tasks/scheduler.py.
use ghostmon.Base.{ℕ, zero, suc, Bool, true, false, String, Option, List, [], ◌∷◌, if◌then◌else◌}
use ghostmon.Model.Monitor.{Monitor, ProbeStatus}

-- app/tasks/probes.py
pub record ProbeOutcome : Type 0 where
  pub status : ProbeStatus
  pub latency_ms : Option ℕ
  pub error : Option String

-- an outcome and the moment of the probe
pub record Attempt : Type 0 where
  pub outcome : ProbeOutcome
  pub probed_at : ℕ

abbrev pub up_status : ProbeStatus → Bool
up_status ProbeStatus.up = true
up_status ProbeStatus.down = false

abbrev pub is_up : Attempt → Bool
is_up a = up_status a.outcome.status

-- `attempts[-1]`, of a list that begins with `first`
abbrev pub last_attempt : Attempt → List Attempt → Attempt
last_attempt first [] = first
last_attempt first (a ∷ rest) = last_attempt a rest

-- The network is a parameter: what the nth run of the probe returns, from 0 on.
module _ (run_probe : ℕ → Attempt) where
  -- the loop, from its nth run on, with `left` runs at most, up to the `break`
  unfoldable pub retry : ℕ → ℕ → List Attempt
  retry zero n = []
  retry (suc left) n =
      let rest = retry left (suc n) in
      if is_up (run_probe n) then run_probe n ∷ [] else run_probe n ∷ rest

  unfoldable pub probe_with_retries : Monitor → List Attempt
  unfolding retry
  probe_with_retries m =
      if is_up (run_probe 0) then run_probe 0 ∷ [] else run_probe 0 ∷ retry m.retries 1
