-- ===== src/Problems/Acknowledge.antt =====
-- `acknowledge` of app/core/services/problem_event_service.py.
use ghostmon.Base.{ℕ, ◌≡◌, refl, none, some, List, [], ◌∷◌, arith, find}
use ghostmon.Model.Problem.{ProblemEvent}
use ghostmon.Problems.{Timeline, is_event_of, stamp, stamp_row, acknowledge}
use ghostmon.Problems.Open.{open_count}

module _ {F : Type 0} where
  open_count-stamp_row :
      (k i o u now : ℕ) (es : List (ProblemEvent F))
      → open_count k (stamp_row i o u now es) ≡ open_count k es
  unfolding open_count stamp_row
  open_count-stamp_row k i o u now [] = refl
  open_count-stamp_row k i o u now (e ∷ es) = ground (arith, open_count-stamp_row k i o u now es)

  pub open_count-acknowledge :
      (k i o u now : ℕ) (tl : Timeline F)
      → open_count k (acknowledge i o u now tl).1.events ≡ open_count k tl.events
  unfolding acknowledge
  open_count-acknowledge k i o u now tl = ground (arith, open_count-stamp_row k i o u now tl.events)

  find-stamp_row :
      (i o u now : ℕ) (es : List (ProblemEvent F))
      → find (is_event_of i o) (stamp_row i o u now es)
        ≡ elim (find (is_event_of i o) es) [ none ↦ none | some e ↦ some (stamp u now e) ]
  unfolding stamp_row
  find-stamp_row i o u now [] = refl
  find-stamp_row i o u now (e ∷ es) = ground (arith, find-stamp_row i o u now es)

  stamp_row_again :
      (i o u v now later : ℕ) (es : List (ProblemEvent F))
      → stamp_row i o v later (stamp_row i o u now es) ≡ stamp_row i o u now es
  unfolding stamp_row
  stamp_row_again i o u v now later [] = refl
  stamp_row_again i o u v now later (e ∷ es) = ground (arith, stamp_row_again i o u v now later es)

  -- A second acknowledgement of the same event, by whatever user and at whatever time, returns
  -- the event as the first one left it and changes nothing in the timeline.
  pub acknowledge_first_stays :
      (i o u v now later : ℕ) (tl : Timeline F)
      → acknowledge i o v later (acknowledge i o u now tl).1 ≡ acknowledge i o u now tl
  unfolding acknowledge
  acknowledge_first_stays i o u v now later tl =
      ground
        (arith, find-stamp_row i o u now tl.events, stamp_row_again i o u v now later tl.events)
