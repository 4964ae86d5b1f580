-- ===== src/Escalation/Runs.antt =====
-- The job of app/core/services/escalation_service.py over the life of a timeline, with what happens
-- between its runs.
use ghostmon.Base.{
  ℕ, ◌≤◌, ◌<◌, ◌≡◌, ◌≢◌, Option, List, [], ◌∷◌, ◌++◌, arith, map, concat_map, ap, sym, ◌∙◌, All,
  All-append, All-weaken, All-join, Distinct, Absent, String,
}
use ghostmon.Model.Trigger.{Severity}
use ghostmon.Model.Problem.{ProblemEvent}
use ghostmon.Model.Channel.{NotificationChannel}
use ghostmon.Model.Escalation.{EscalationPolicy}
use ghostmon.Problems.{Timeline, open_event, close_event, acknowledge}
use ghostmon.Notifications.Events.{EscalationAlertEvent}
use ghostmon.Problems.Later.{
  WellNumbered, event_key, Later, Later-map, step_of, Later-step_of, Later-acknowledge,
  Later-close_event, Later-WellNumbered, acknowledge-WellNumbered, open_event-WellNumbered,
  step_of-open_event,
}
use ghostmon.Escalation.{Delivery, due_escalations}
use ghostmon.Escalation.Deliveries.{Rising, Rising-le}
use ghostmon.Escalation.Rows.{pass, due_escalations-eq, pass-Rising, pass-frame, pass-Legitimate}

-- What happens to a timeline: a run of the escalation job with the policies and channels of its
-- moment, a problem that opens, one that is resolved, and an acknowledgement.
pub data Op (F : Type 0) : Type 0 where
  tick : List EscalationPolicy → List NotificationChannel → ℕ → Op F
  opens : ℕ → ℕ → String → String → Severity → Option F → ℕ → Op F
  resolves : ℕ → ℕ → Op F
  acks : ℕ → ℕ → ℕ → ℕ → Op F

module _ {F : Type 0} where
  unfoldable pub perform : Op F → Timeline F → Timeline F × List (Delivery F)
  perform (tick policies channels now) tl =
      let r = due_escalations policies channels now tl.events in (record tl { events = r.0 }, r.1)
  perform (opens t o s n v x now) tl = (open_event t o s n v x now tl, [])
  perform (resolves t now) tl = (close_event t now tl, [])
  perform (acks i o u now) tl = ((acknowledge i o u now tl).1, [])

  -- the timeline at the end, and all that was delivered, in order
  unfoldable pub run : List (Op F) → Timeline F → Timeline F × List (Delivery F)
  run [] tl = (tl, [])
  run (op ∷ ops) tl =
      let (tl', now_delivered) = perform op tl in
      let rest = run ops tl' in (rest.0, now_delivered ++ rest.1)

  -- the deliveries are not of the same problem and the same step
  abbrev pub Differ : Delivery F → Delivery F → Type 0
  Differ d e = ¬ ((e.0.problem_id ≡ d.0.problem_id) × (e.0.step_order ≡ d.0.step_order))

  -- no two of them are
  abbrev pub Unrepeated : List (Delivery F) → Type 0
  Unrepeated [] = Unit
  Unrepeated (d ∷ ds) = All (Differ d) ds × Unrepeated ds

  pub Unrepeated-append :
      (xs ys : List (Delivery F))
      → Unrepeated xs
      → Unrepeated ys
      → All (λ d. All (Differ d) ys) xs
      → Unrepeated (xs ++ ys)
  Unrepeated-append [] ys hx hy h = hy
  Unrepeated-append (x ∷ xs) ys hx hy h =
      (All-append (Differ x) xs ys hx.0 h.0, Unrepeated-append xs ys hx.1 hy h.1)

  -- deliveries whose orders rise
  Rising-above :
      (k lo hi : ℕ) (ds : List (Delivery F))
      → k ≤ lo
      → Rising lo hi ds
      → All (λ d. (k < d.0.step_order) × (d.0.step_order ≤ hi)) ds
  Rising-above k lo hi [] h r = tt
  Rising-above k lo hi ((event, channel) ∷ ds) h r = (
    (omega arith, Rising-le event.step_order hi ds r.1),
    Rising-above k event.step_order hi ds (omega arith) r.1,
  )

  Rising-Unrepeated : (lo hi : ℕ) (ds : List (Delivery F)) → Rising lo hi ds → Unrepeated ds
  Rising-Unrepeated lo hi [] r = tt
  Rising-Unrepeated lo hi ((event, channel) ∷ ds) r = (
    All-weaken (λ d. (event.step_order < d.0.step_order) × (d.0.step_order ≤ hi)) _
        (λ e h both. omega (arith, h.0, both.1)) ds
        (Rising-above event.step_order event.step_order hi ds (omega arith) r.1),
    Rising-Unrepeated event.step_order hi ds r.1,
  )

  -- a delivery is above the progress of its problem before the pass, and within it afterwards
  pub record Within (before after : List (ProblemEvent F)) (d : Delivery F) : Type 0 where
    pub above : step_of d.0.problem_id before < d.0.step_order
    pub up_to : d.0.step_order ≤ step_of d.0.problem_id after

module _ {F : Type 0} (policies : List EscalationPolicy) (channels : List NotificationChannel)
    (now : ℕ) where
  -- what the pass over one problem delivers
  record OfRow (p : ProblemEvent F) (d : Delivery F) : Type 0 where
    same : d.0.problem_id ≡ p.id
    above : p.escalated_step < d.0.step_order
    up_to : d.0.step_order ≤ (pass policies channels now p).0.escalated_step

  pass-OfRow : (p : ProblemEvent F) → All (OfRow p) (pass policies channels now p).1
  pass-OfRow p =
      All-join _ _ _
        (λ d l b. record {
          same = ap (λ (e : EscalationAlertEvent F). e.problem_id) l.sound.event;
          above = b.0;
          up_to = b.1;
        })
        (pass policies channels now p).1 (pass-Legitimate policies channels now p)
        (Rising-above _ _ _ _ (omega arith) (pass-Rising policies channels now p))

  abbrev sent : List (ProblemEvent F) → List (Delivery F)
  sent ps = concat_map (λ p. (pass policies channels now p).1) ps

  abbrev passed : List (ProblemEvent F) → List (ProblemEvent F)
  passed ps = map (λ p. (pass policies channels now p).0) ps

  pub Later-passed : (ps : List (ProblemEvent F)) → Later ps (passed ps)
  Later-passed ps =
      Later-map (λ p. (pass policies channels now p).0)
        (λ p. (
          ap (λ (e : ProblemEvent F). e.id) (pass-frame policies channels now p),
          Rising-le _ _ _ (pass-Rising policies channels now p),
        ))
        ps

  sent-Absent :
      (k : ℕ) (ps : List (ProblemEvent F))
      → Absent event_key k ps
      → All (λ d. d.0.problem_id ≢ k) (sent ps)
  sent-Absent k [] a = tt
  sent-Absent k (p ∷ ps) a =
      All-append (λ d. d.0.problem_id ≢ k) (pass policies channels now p).1 (sent ps)
        (All-weaken (OfRow p) _ (λ d o e. a.0 (sym o.same ∙ e)) _ (pass-OfRow p))
        (sent-Absent k ps a.1)

  same_id : (p : ProblemEvent F) → (pass policies channels now p).0.id ≡ p.id
  same_id p = ap (λ (e : ProblemEvent F). e.id) (pass-frame policies channels now p)

  pub sent-Within :
      (ps : List (ProblemEvent F)) → Distinct event_key ps → All (Within ps (passed ps)) (sent ps)
  unfolding step_of
  sent-Within [] u = tt
  sent-Within (p ∷ ps) u =
      All-append (Within (p ∷ ps) (passed (p ∷ ps))) (pass policies channels now p).1 (sent ps)
        (All-weaken (OfRow p) _ (λ d o. ground (arith, same_id p)) _ (pass-OfRow p))
        (All-join _ _ _ (λ d n w. ground (arith, same_id p)) (sent ps) (sent-Absent p.id ps u.0)
          (sent-Within ps u.1))

  pub sent-Unrepeated : (ps : List (ProblemEvent F)) → Distinct event_key ps → Unrepeated (sent ps)
  sent-Unrepeated [] u = tt
  sent-Unrepeated (p ∷ ps) u =
      Unrepeated-append (pass policies channels now p).1 (sent ps)
        (Rising-Unrepeated _ _ _ (pass-Rising policies channels now p)) (sent-Unrepeated ps u.1)
        (All-weaken (OfRow p) _
          (λ d o.
            All-weaken (λ e. e.0.problem_id ≢ p.id) (Differ d) (λ e n both. n (both.0 ∙ o.same)) _
              (sent-Absent p.id ps u.0))
          _ (pass-OfRow p))

module _ {F : Type 0} where
  -- what one operation does
  record Performed (tl tl' : Timeline F) (ds : List (Delivery F)) : Type 0 where
    numbered : WellNumbered tl'
    grows : (k : ℕ) → step_of k tl.events ≤ step_of k tl'.events
    within : All (Within tl.events tl'.events) ds
    unrepeated : Unrepeated ds

  perform-Performed :
      (op : Op F) (tl : Timeline F)
      → WellNumbered tl
      → Performed tl (perform op tl).0 (perform op tl).1
  unfolding perform close_event
  perform-Performed (tick policies channels now) tl w = rw due_escalations-eq (record {
    numbered = Later-WellNumbered tl _ (Later-passed policies channels now tl.events) w;
    grows = λ k. Later-step_of k tl.events _ (Later-passed policies channels now tl.events);
    within = sent-Within policies channels now tl.events w.distinct;
    unrepeated = sent-Unrepeated policies channels now tl.events w.distinct;
  })
  perform-Performed (opens t o s n v x now) tl w = record {
    numbered = open_event-WellNumbered t o s n v x now tl w;
    grows = λ k. step_of-open_event k t o s n v x now tl;
    within = tt;
    unrepeated = tt;
  }
  perform-Performed (resolves t now) tl w = record {
    numbered = Later-WellNumbered tl _ (Later-close_event t now tl) w;
    grows = λ k. Later-step_of k tl.events _ (Later-close_event t now tl);
    within = tt;
    unrepeated = tt;
  }
  perform-Performed (acks i o u now) tl w = record {
    numbered = acknowledge-WellNumbered i o u now tl w;
    grows = λ k. Later-step_of k tl.events _ (Later-acknowledge i o u now tl);
    within = tt;
    unrepeated = tt;
  }

  abbrev Above : List (ProblemEvent F) → Delivery F → Type 0
  Above es d = step_of d.0.problem_id es < d.0.step_order

  run-Above :
      (ops : List (Op F)) (tl : Timeline F) → WellNumbered tl → All (Above tl.events) (run ops tl).1
  unfolding run
  run-Above [] tl w = tt
  run-Above (op ∷ ops) tl w =
      let done = perform-Performed op tl w in
      let tl' = (perform op tl).0 in
      All-append (Above tl.events) (perform op tl).1 (run ops tl').1
        (All-weaken (Within tl.events tl'.events) (Above tl.events) (λ d h. h.above) _ done.within)
        (All-weaken (Above tl'.events) (Above tl.events)
          (λ d h. omega (arith, h, done.grows d.0.problem_id)) _ (run-Above ops tl' done.numbered))

  -- From a timeline whose ids are different and below the next one, through any sequence of escalation
  -- runs (each with its own policies, channels and time, in any order of times), openings,
  -- resolutions and acknowledgements, no step is delivered twice for the same problem.
  pub run-Unrepeated :
      (ops : List (Op F)) (tl : Timeline F) → WellNumbered tl → Unrepeated (run ops tl).1
  unfolding run
  run-Unrepeated [] tl w = tt
  run-Unrepeated (op ∷ ops) tl w =
      let done = perform-Performed op tl w in
      let tl' = (perform op tl).0 in
      Unrepeated-append (perform op tl).1 (run ops tl').1 done.unrepeated
        (run-Unrepeated ops tl' done.numbered)
        (All-weaken (Within tl.events tl'.events) _
          (λ d h.
            All-weaken (Above tl'.events) (Differ d)
              (λ e above both.
                let same = both.0 in
                let eq = both.1 in
                let le : e.0.step_order ≤ step_of e.0.problem_id tl'.events =
                  rw (same, eq) h.up_to in
                absurd (omega (arith, le, above)))
              _ (run-Above ops tl' done.numbered))
          _ done.within)
