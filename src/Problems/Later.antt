-- ===== src/Problems/Later.antt =====
-- Later versions of the timeline of app/core/services/problem_event_service.py.
use ghostmon.Base.{
  ℕ, suc, ◌≤◌, ◌<◌, ◌≡◌, ◌≢◌, refl, Option, List, [], ◌∷◌, ◌++◌, arith, ◌==◌, if◌then◌else◌, map,
  Bool-cases, inl, inr, sym, ◌∙◌, All, All-append, All-weaken, Pointwise, Distinct, Absent, String,
  Option-cases,
}
use ghostmon.Model.Trigger.{Severity}
use ghostmon.Model.Problem.{ProblemEvent}
use ghostmon.Problems.{
  Timeline, open_event, close_event, resolve, stamp_row, acknowledge, get, is_event_of,
}

module _ {F : Type 0} where
  abbrev pub event_key : ProblemEvent F → ℕ
  event_key e = e.id

  -- the ids are a primary key, and the next one is new
  pub record WellNumbered (tl : Timeline F) : Type 0 where
    pub distinct : Distinct event_key tl.events
    pub below : All (λ e. e.id < tl.next_id) tl.events

  -- a later version of the rows: the same ids, and no escalation taken back
  abbrev pub Later : List (ProblemEvent F) → List (ProblemEvent F) → Type 0
  Later = Pointwise (λ a b. (b.id ≡ a.id) × (a.escalated_step ≤ b.escalated_step))

  pub Later-map :
      (f : ProblemEvent F → ProblemEvent F)
      → ((e : ProblemEvent F) → ((f e).id ≡ e.id) × (e.escalated_step ≤ (f e).escalated_step))
      → (es : List (ProblemEvent F)) → Later es (map f es)
  Later-map f h [] = tt
  Later-map f h (e ∷ es) = (h e, Later-map f h es)

  pub Later-Absent :
      (k : ℕ) (es ds : List (ProblemEvent F))
      → Later es ds
      → Absent event_key k es
      → Absent event_key k ds
  Later-Absent k [] [] l a = tt
  Later-Absent k [] (d ∷ ds) l a = absurd (l tt)
  Later-Absent k (e ∷ es) [] l a = tt
  Later-Absent k (e ∷ es) (d ∷ ds) l a = (λ h. a.0 (sym l.0.0 ∙ h), Later-Absent k es ds l.1 a.1)

  pub Later-Distinct :
      (es ds : List (ProblemEvent F)) → Later es ds → Distinct event_key es → Distinct event_key ds
  Later-Distinct [] [] l h = tt
  Later-Distinct [] (d ∷ ds) l h = absurd (l tt)
  Later-Distinct (e ∷ es) [] l h = tt
  Later-Distinct (e ∷ es) (d ∷ ds) l h =
      (rw l.0.0 (Later-Absent e.id es ds l.1 h.0), Later-Distinct es ds l.1 h.1)

  pub Later-below :
      (n : ℕ) (es ds : List (ProblemEvent F))
      → Later es ds
      → All (λ e. e.id < n) es
      → All (λ e. e.id < n) ds
  Later-below n [] [] l h = tt
  Later-below n [] (d ∷ ds) l h = absurd (l tt)
  Later-below n (e ∷ es) [] l h = tt
  Later-below n (e ∷ es) (d ∷ ds) l h = (rw l.0.0 h.0, Later-below n es ds l.1 h.1)

  -- the progress of the problem `k`
  unfoldable pub step_of : ℕ → List (ProblemEvent F) → ℕ
  step_of k [] = 0
  step_of k (e ∷ es) = if e.id == k then e.escalated_step else step_of k es

  pub Later-step_of :
      (k : ℕ) (es ds : List (ProblemEvent F)) → Later es ds → step_of k es ≤ step_of k ds
  unfolding step_of
  Later-step_of k [] [] l = omega arith
  Later-step_of k [] (d ∷ ds) l = absurd (l tt)
  Later-step_of k (e ∷ es) [] l = absurd (l tt)
  Later-step_of k (e ∷ es) (d ∷ ds) l = ground (arith, Later-step_of k es ds l.1)

  pub step_of-append :
      (k : ℕ) (es : List (ProblemEvent F)) (e : ProblemEvent F)
      → step_of k es ≤ step_of k (es ++ e ∷ [])
  unfolding step_of
  step_of-append k [] e = omega arith
  step_of-append k (x ∷ es) e = ground (arith, step_of-append k es e)

  Later-refl : (es : List (ProblemEvent F)) → Later es es
  Later-refl [] = tt
  Later-refl (e ∷ es) = ((refl, omega arith), Later-refl es)

  Later-stamp_row : (i o u now : ℕ) (es : List (ProblemEvent F)) → Later es (stamp_row i o u now es)
  unfolding stamp_row
  Later-stamp_row i o u now [] = tt
  Later-stamp_row i o u now (e ∷ es) = elim (Bool-cases (is_event_of i o e)) [
    | inl mine ↦ rw mine ((ground arith, ground arith), Later-refl es)
    | inr other ↦ rw other ((refl, omega arith), Later-stamp_row i o u now es)
  ]

  pub Later-acknowledge :
      (i o u now : ℕ) (tl : Timeline F) → Later tl.events (acknowledge i o u now tl).1.events
  unfolding acknowledge
  Later-acknowledge i o u now tl = elim (Option-cases (get i o tl)) [
    | inl missing ↦ rw (missing, acknowledge) (Later-refl tl.events)
    | inr (e, found) ↦ rw (found, acknowledge) (Later-stamp_row i o u now tl.events)
  ]

  pub Later-WellNumbered :
      (tl : Timeline F) (es : List (ProblemEvent F))
      → Later tl.events es
      → WellNumbered tl
      → WellNumbered (record tl { events = es })
  Later-WellNumbered tl es l w = record {
    distinct = Later-Distinct tl.events es l w.distinct;
    below = Later-below tl.next_id tl.events es l w.below;
  }

  pub acknowledge-WellNumbered :
      (i o u now : ℕ) (tl : Timeline F)
      → WellNumbered tl
      → WellNumbered (acknowledge i o u now tl).1
  unfolding acknowledge
  acknowledge-WellNumbered i o u now tl w = elim (Option-cases (get i o tl)) [
    | inl missing ↦ rw (missing, acknowledge) w
    | inr (e, found) ↦
        rw (found, acknowledge)
          (Later-WellNumbered tl (stamp_row i o u now tl.events)
            (Later-stamp_row i o u now tl.events) w)
  ]

  pub Later-close_event :
      (t now : ℕ) (tl : Timeline F) → Later tl.events (close_event t now tl).events
  unfolding close_event
  Later-close_event t now tl =
      Later-map (resolve t now) (λ e. (ground arith, ground arith)) tl.events

  Distinct-append :
      (es : List (ProblemEvent F)) (e : ProblemEvent F)
      → Distinct event_key es
      → All (λ x. x.id < e.id) es
      → Distinct event_key (es ++ e ∷ [])
  Distinct-append [] e d b = (tt, tt)
  Distinct-append (x ∷ xs) e d b = (
    All-append (λ y. y.id ≢ x.id) xs (e ∷ []) d.0 ((λ h. omega arith), tt),
    Distinct-append xs e d.1 b.1,
  )

  pub open_event-WellNumbered :
      (t o : ℕ) (s n : String) (v : Severity) (x : Option F) (now : ℕ) (tl : Timeline F)
      → WellNumbered tl
      → WellNumbered (open_event t o s n v x now tl)
  unfolding open_event
  open_event-WellNumbered t o s n v x now tl w = record {
    distinct = Distinct-append tl.events _ w.distinct w.below;
    below =
        All-append (λ e. e.id < suc tl.next_id) tl.events _
          (All-weaken (λ (e : ProblemEvent F). e.id < tl.next_id) (λ e. e.id < suc tl.next_id)
            (λ e h. omega arith) tl.events w.below)
          (omega arith, tt);
  }

  pub step_of-open_event :
      (k t o : ℕ) (s n : String) (v : Severity) (x : Option F) (now : ℕ) (tl : Timeline F)
      → step_of k tl.events ≤ step_of k (open_event t o s n v x now tl).events
  unfolding open_event
  step_of-open_event k t o s n v x now tl = step_of-append k tl.events _
