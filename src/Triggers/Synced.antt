-- ===== src/Triggers/Synced.antt =====
-- The agreement of the timeline with the triggers, under app/core/services/trigger_service.py.
use ghostmon.Base.{
  ℕ, ◌≡◌, refl, Bool, Option, some, List, [], ◌∷◌, arith, String, All, Absent, Distinct, sym, ◌∙◌,
}
use ghostmon.Model.Floats.{Floats, Aggregates}
use ghostmon.Model.Trigger.{TriggerMetric, TriggerState, Trigger}
use ghostmon.Problems.{Timeline}
use ghostmon.Problems.Open.{open_count}
use ghostmon.Triggers.{
  item_subject, Audience, History, evaluate_trigger, visit, evaluate_rows, evaluate, evaluate_item,
}
use ghostmon.Triggers.Rows.{expected, id-visit, open_count-visit_ne, open_count-record_problem}

module _ {F : Type 0} where
  abbrev pub trigger_key : Trigger F → ℕ
  trigger_key t = t.id

  abbrev pub Agrees : Timeline F → Trigger F → Type 0
  Agrees tl t = open_count t.id tl.events ≡ expected t.state

  -- the table of triggers and the timeline
  pub record Synced (triggers : List (Trigger F)) (tl : Timeline F) : Type 0 where
    pub distinct : Distinct trigger_key triggers
    pub agree : All (Agrees tl) triggers

module _ {F A : Type 0} ⦃fl : Floats F⦄ (selected : Trigger F → Bool)
    (observe : Trigger F → Option F) (a : Audience) (now : ℕ)
    (alert : Trigger F → F → TriggerState → A) where
  visit-Agrees :
      (t : Trigger F) (tl : Timeline F)
      → Agrees tl t
      → Agrees
          (visit selected observe (some a) now alert t tl).1
          (visit selected observe (some a) now alert t tl).0
  unfolding evaluate_trigger
  visit-Agrees t tl h = grind (arith, open_count-record_problem)

  visit-Agrees_rest :
      (t : Trigger F) (tl : Timeline F) (ts : List (Trigger F))
      → Absent trigger_key t.id ts
      → All (Agrees tl) ts
      → All (Agrees (visit selected observe (some a) now alert t tl).1) ts
  visit-Agrees_rest t tl [] d h = tt
  visit-Agrees_rest t tl (u ∷ us) d h = (
    open_count-visit_ne selected observe (some a) now alert u.id t tl (λ e. d.0 (sym e)) ∙ h.0,
    visit-Agrees_rest t tl us d.1 h.1,
  )

  open_count-rows-Absent :
      (k : ℕ) (ts : List (Trigger F)) (tl : Timeline F)
      → Absent trigger_key k ts
      → open_count k (evaluate_rows selected observe (some a) now alert ts tl).timeline.events
        ≡ open_count k tl.events
  unfolding evaluate_rows
  open_count-rows-Absent k [] tl d = refl
  open_count-rows-Absent k (t ∷ ts) tl d =
      open_count-rows-Absent k ts (visit selected observe (some a) now alert t tl).1 d.1
      ∙ open_count-visit_ne selected observe (some a) now alert k t tl d.0

  rows-Absent :
      (k : ℕ) (ts : List (Trigger F)) (tl : Timeline F)
      → Absent trigger_key k ts
      → Absent trigger_key k (evaluate_rows selected observe (some a) now alert ts tl).triggers
  unfolding evaluate_rows
  rows-Absent k [] tl d = tt
  rows-Absent k (t ∷ ts) tl d = (
    λ e. d.0 (sym (id-visit selected observe (some a) now alert t tl) ∙ e),
    rows-Absent k ts (visit selected observe (some a) now alert t tl).1 d.1,
  )

  pub rows-Synced :
      (ts : List (Trigger F)) (tl : Timeline F)
      → Synced ts tl
      → Synced
          (evaluate_rows selected observe (some a) now alert ts tl).triggers
          (evaluate_rows selected observe (some a) now alert ts tl).timeline
  unfolding evaluate_rows
  rows-Synced [] tl s = s
  rows-Synced (t ∷ ts) tl s =
      let tl' = (visit selected observe (some a) now alert t tl).1 in
      let same = id-visit selected observe (some a) now alert t tl in
      let rest = rows-Synced ts tl' (record {
        distinct = s.distinct.1;
        agree = visit-Agrees_rest t tl ts s.distinct.0 s.agree.1;
      }) in
      record {
        distinct = (rw same (rows-Absent t.id ts tl' s.distinct.0), rest.distinct);
        agree = (
          open_count-rows-Absent _ ts tl' (rw same s.distinct.0) ∙ visit-Agrees t tl s.agree.0,
          rest.agree,
        );
      }

module _ {F : Type 0} ⦃fl : Floats F⦄ ⦃agg : Aggregates F⦄ where
  -- When the trigger ids are different and every trigger in PROBLEM has one ongoing event and every
  -- trigger in OK none, then the same holds after the evaluation of a monitor whose owner and subject
  -- are given, whatever the history and the collected values.
  pub evaluate-Synced :
      (db : History F) (monitor_id : ℕ) (values : TriggerMetric → Option F) (now owner_id : ℕ)
      (subject : String) (triggers : List (Trigger F)) (tl : Timeline F)
      → Synced triggers tl
      → let r = evaluate db monitor_id values now (some owner_id) (some subject) triggers tl in
        Synced r.triggers r.timeline
  unfolding evaluate
  evaluate-Synced db monitor_id values now owner_id subject triggers tl s =
      rows-Synced _ _ (record { owner_id = owner_id; subject = subject }) now _ triggers tl s

  -- When the trigger ids are different and every trigger in PROBLEM has one ongoing event and every
  -- trigger in OK none, then the same holds after the evaluation of an item whose owner is given,
  -- whatever the history and the new value.
  pub evaluate_item-Synced :
      (db : History F) (item_id : ℕ) (item_key item_name : String) (host_id : ℕ)
      (host_name : String) (latest_value : Option F) (now owner_id : ℕ)
      (triggers : List (Trigger F)) (tl : Timeline F)
      → Synced triggers tl
      → let r =
          evaluate_item db item_id item_key item_name host_id host_name latest_value now
            (some owner_id)
            triggers
            tl in
        Synced r.triggers r.timeline
  unfolding evaluate_item
  evaluate_item-Synced db item_id item_key item_name host_id host_name latest_value now owner_id
        triggers tl s =
      rows-Synced _ _ (record { owner_id = owner_id; subject = item_subject host_name item_key })
        now _ triggers tl s
