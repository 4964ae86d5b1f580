-- ===== src/Problems.antt =====
-- app/core/services/problem_event_service.py: the timeline of problem events.
pub mod Open
pub mod Acknowledge
pub mod Later
use ghostmon.Base.{
  ℕ, ◌+◌, Bool, true, false, ◌&&◌, String, Option, none, some, List, [], ◌∷◌, ◌++◌, map, suc, ltb,
  leb, ◌==◌, if◌then◌else◌, is_some, not, filterb, find, take,
}
use ghostmon.Model.Trigger.{Severity}
use ghostmon.Model.Problem.{ProblemEvent}

-- The table, and the next UUID that the database hands out.
pub record Timeline (F : Type 0) : Type 0 where
  pub events : List (ProblemEvent F)
  pub next_id : ℕ

module _ {F : Type 0} where
  -- `resolved_at IS NULL`
  abbrev pub is_ongoing : ProblemEvent F → Bool
  is_ongoing e = not (is_some e.resolved_at)

  -- `open`: a new row with no resolution and no acknowledgement
  unfoldable pub open_event :
      ℕ → ℕ → String → String → Severity → Option F → ℕ → Timeline F → Timeline F
  open_event trigger_id owner_id subject trigger_name severity value now tl = record {
    events =
        tl.events
        ++ record {
          id = tl.next_id;
          trigger_id = trigger_id;
          owner_id = owner_id;
          subject = subject;
          trigger_name = trigger_name;
          severity = severity;
          value = value;
          started_at = now;
          resolved_at = none;
          acknowledged_at = none;
          acknowledged_by_id = none;
          escalated_step = 0;
        }
          ∷ [];
    next_id = suc tl.next_id;
  }

  abbrev pub resolve : ℕ → ℕ → ProblemEvent F → ProblemEvent F
  resolve trigger_id now e =
      if e.trigger_id == trigger_id && is_ongoing e then record e { resolved_at = some now } else e

  -- `close`: one UPDATE of every ongoing row of the trigger
  unfoldable pub close_event : ℕ → ℕ → Timeline F → Timeline F
  close_event trigger_id now tl = record tl { events = map (resolve trigger_id now) tl.events }

  -- `ORDER BY resolved_at IS NOT NULL, started_at DESC`: whether `a` stands before `b`
  abbrev pub before : ProblemEvent F → ProblemEvent F → Bool
  before a b =
      if is_ongoing a
      then (if is_ongoing b then leb b.started_at a.started_at else true)
      else (if is_ongoing b then false else leb b.started_at a.started_at)

  pub insert_sorted : ProblemEvent F → List (ProblemEvent F) → List (ProblemEvent F)
  insert_sorted e [] = e ∷ []
  insert_sorted e (x ∷ xs) =
      let later = insert_sorted e xs in if before e x then e ∷ x ∷ xs else x ∷ later

  pub sort_events : List (ProblemEvent F) → List (ProblemEvent F)
  unfolding insert_sorted
  sort_events [] = []
  sort_events (e ∷ es) = insert_sorted e (sort_events es)

  pub list_for_owner : ℕ → ℕ → Timeline F → List (ProblemEvent F)
  unfolding sort_events
  list_for_owner owner_id limit tl =
      take limit (sort_events (filterb (λ e. e.owner_id == owner_id) tl.events))

  abbrev pub is_event_of : ℕ → ℕ → ProblemEvent F → Bool
  is_event_of event_id owner_id e = e.id == event_id && e.owner_id == owner_id

  pub get : ℕ → ℕ → Timeline F → Option (ProblemEvent F)
  get event_id owner_id tl = find (is_event_of event_id owner_id) tl.events

  -- the first acknowledgement stays
  pub stamp : ℕ → ℕ → ProblemEvent F → ProblemEvent F
  stamp user_id now e =
      if is_some e.acknowledged_at
      then e
      else record e { acknowledged_at = some now; acknowledged_by_id = some user_id }

  -- the row that `get` finds, rewritten in place
  pub stamp_row : ℕ → ℕ → ℕ → ℕ → List (ProblemEvent F) → List (ProblemEvent F)
  unfolding stamp
  stamp_row event_id owner_id user_id now [] = []
  stamp_row event_id owner_id user_id now (e ∷ es) =
      let later = stamp_row event_id owner_id user_id now es in
      if is_event_of event_id owner_id e then stamp user_id now e ∷ es else e ∷ later

  -- `acknowledge`: the event as it is returned, and the table
  unfoldable pub acknowledge : ℕ → ℕ → ℕ → ℕ → Timeline F → Option (ProblemEvent F) × Timeline F
  unfolding get stamp_row
  acknowledge event_id owner_id user_id now tl = elim (get event_id owner_id tl) [
    | none ↦ (none, tl)
    | some e ↦ (
      some (stamp user_id now e),
      record tl { events = stamp_row event_id owner_id user_id now tl.events },
    )
  ]
