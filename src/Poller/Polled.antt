-- ===== src/Poller/Polled.antt =====
-- What a poll of app/tasks/item_poller.py leaves.
use ghostmon.Base.{
  ℕ, ◌+◌, ◌≤◌, ◌<◌, ◌≡◌, refl, false, String, Option, some, List, [], ◌∷◌, ◌++◌, ◌==◌, arith,
  Option-cases, Bool-cases, inl, inr, seconds, ==_refl, sym,
}
use ghostmon.Model.Floats.{Floats, Aggregates}
use ghostmon.Model.Host.{Item, MetricValue}
use ghostmon.Triggers.Synced.{Synced, evaluate_item-Synced}
use ghostmon.Secrets.{Fernet}
use ghostmon.Ingest.{Tables}
use ghostmon.Poller.{
  PollTarget, Network, latest, last_at, is_due, due_targets, poll_value, store_value, poll_one,
  poll_targets, poll_due_items,
}

module _ {F : Type 0} where
  last_at-append :
      (v : MetricValue F) (vs : List (MetricValue F))
      → (t : ℕ) × (last_at v.item_id (vs ++ v ∷ []) ≡ some t) × (v.collected_at ≤ t)
  unfolding last_at
  last_at-append v [] = (v.collected_at, rw ==_refl refl, omega arith)
  last_at-append v (u ∷ us) =
      let (t, e, le) = last_at-append v us in
      elim (Bool-cases (u.item_id == v.item_id)) [
        | inl mine ↦ rw (mine, e) (latest u.collected_at (some t), refl, ground arith)
        | inr other ↦ rw other (t, e, le)
      ]

module _ {F : Type 0} ⦃fl : Floats F⦄ ⦃agg : Aggregates F⦄ (net : Network F) (f : Fernet) where
  poll_one-Synced :
      (target : PollTarget) (now : ℕ) (db : Tables F)
      → Synced db.triggers db.timeline
      → Synced
          (poll_one net f target now db).tables.triggers
          (poll_one net f target now db).tables.timeline
  unfolding poll_one store_value
  poll_one-Synced target now db s = elim (Option-cases (poll_value net f target)) [
    | inl skipped ↦ rw (skipped, poll_one) s
    | inr (columns, taken) ↦
        rw (taken, poll_one) (evaluate_item-Synced _ _ _ _ _ _ _ _ target.owner_id _ _ s)
  ]

  poll_targets-Synced :
      (targets : List PollTarget) (now : ℕ) (db : Tables F)
      → Synced db.triggers db.timeline
      → Synced
          (poll_targets net f targets now db).tables.triggers
          (poll_targets net f targets now db).tables.timeline
  unfolding poll_targets
  poll_targets-Synced [] now db s = s
  poll_targets-Synced (t ∷ ts) now db s =
      poll_targets-Synced ts now (poll_one net f t now db).tables (poll_one-Synced t now db s)

  -- Polling the items that are due keeps the agreement of triggers and timeline, whatever the network
  -- answers: one ongoing problem event for a trigger in PROBLEM, none for one in OK.
  pub poll_due_items-Synced :
      (now : ℕ) (db : Tables F)
      → Synced db.triggers db.timeline
      → Synced
          (poll_due_items net f now db).tables.triggers
          (poll_due_items net f now db).tables.timeline
  unfolding poll_due_items
  poll_due_items-Synced now db s =
      poll_targets-Synced (due_targets now db.hosts db.values db.items) now db s

  -- An item whose target was polled with a value is not due again before its interval has passed since
  -- that poll, whatever samples it had.
  pub polled_not_due :
      (item : Item) (target : PollTarget) (columns : Option F × Option String) (now later : ℕ)
      (db : Tables F)
      → target.item_id ≡ item.id
      → poll_value net f target ≡ some columns
      → later < now + seconds item.interval
      → is_due item later (last_at item.id (poll_one net f target now db).tables.values) ≡ false
  unfolding is_due poll_one store_value
  polled_not_due item target columns now later db same taken early =
      let sample : MetricValue F = record {
        item_id = target.item_id;
        value_num = columns.0;
        value_text = columns.1;
        collected_at = now;
      } in
      let (t, e, le) = last_at-append sample db.values in
      rw (sym same, taken, poll_one) (rw e (ground (arith, le, early)))
