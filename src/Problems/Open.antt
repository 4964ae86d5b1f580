-- ===== src/Problems/Open.antt =====
-- How many events of a trigger are ongoing, under each operation of the timeline.
use ghostmon.Base.{
  ℕ, ◌+◌, ◌≡◌, ◌&&◌, String, Option, List, [], ◌∷◌, ◌++◌, map, suc, arith, ◌==◌, if◌then◌else◌,
}
use ghostmon.Model.Trigger.{Severity}
use ghostmon.Model.Problem.{ProblemEvent}
use ghostmon.Problems.{Timeline, is_ongoing, open_event, close_event, resolve}

module _ {F : Type 0} where
  unfoldable pub open_count : ℕ → List (ProblemEvent F) → ℕ
  open_count k [] = 0
  open_count k (e ∷ es) =
      let rest = open_count k es in if e.trigger_id == k && is_ongoing e then suc rest else rest

  pub open_count-append :
      (k : ℕ) (xs ys : List (ProblemEvent F))
      → open_count k (xs ++ ys) ≡ open_count k xs + open_count k ys
  unfolding open_count
  open_count-append k [] ys = omega arith
  open_count-append k (x ∷ xs) ys = ground (arith, open_count-append k xs ys)

  pub open_count-open_event :
      (k t o : ℕ) (s n : String) (v : Severity) (x : Option F) (now : ℕ) (tl : Timeline F)
      → open_count k (open_event t o s n v x now tl).events
        ≡ (if t == k then suc (open_count k tl.events) else open_count k tl.events)
  unfolding open_event open_count
  open_count-open_event k t o s n v x now tl = rw open_count-append (ground arith)

  open_count-resolve :
      (k t now : ℕ) (es : List (ProblemEvent F))
      → open_count k (map (resolve t now) es) ≡ (if t == k then 0 else open_count k es)
  unfolding open_count
  open_count-resolve k t now [] = ground arith
  open_count-resolve k t now (e ∷ es) = ground (arith, open_count-resolve k t now es)

  pub open_count-close_event :
      (k t now : ℕ) (tl : Timeline F)
      → open_count k (close_event t now tl).events ≡ (if t == k then 0 else open_count k tl.events)
  unfolding close_event
  open_count-close_event k t now tl = open_count-resolve k t now tl.events
