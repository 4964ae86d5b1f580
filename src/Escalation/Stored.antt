-- ===== src/Escalation/Stored.antt =====
-- The order of the steps of a stored policy (app/core/models/escalation.py).
use ghostmon.Base.{
  ℕ, suc, ◌<◌, ◌≡◌, ◌≢◌, true, false, List, [], ◌∷◌, map, arith, leb, elem, Bool-cases, inl, inr,
  All, All-weaken,
}
use ghostmon.Model.Escalation.{EscalationStep, EscalationPolicy}
use ghostmon.Escalation.Policies.{
  EscalationStepCreate, EscalationPolicyCreate, is_valid_policy, orders_unique, step_row,
  insert_step, step_rows, create_policy, replace_policy,
}

abbrev pub Rises : List EscalationStep → Type 0
Rises [] = Unit
Rises (s ∷ ss) = All (λ t. s.step_order < t.step_order) ss × Rises ss

abbrev orders : List EscalationStepCreate → List ℕ
orders = map (λ s. s.step_order)

All-insert_step :
    (P : EscalationStep → Type 0) (s : EscalationStep) (ts : List EscalationStep)
    → P s
    → All P ts
    → All P (insert_step s ts)
unfolding insert_step
All-insert_step P s [] hs ht = (hs, tt)
All-insert_step P s (t ∷ ts) hs ht = elim (Bool-cases (leb s.step_order t.step_order)) [
  | inl e ↦ rw e (hs, ht)
  | inr e ↦ rw e (ht.0, All-insert_step P s ts hs ht.1)
]

insert_step-Rises :
    (s : EscalationStep) (ts : List EscalationStep)
    → All (λ t. t.step_order ≢ s.step_order) ts
    → Rises ts
    → Rises (insert_step s ts)
unfolding insert_step
insert_step-Rises s [] new r = (tt, tt)
insert_step-Rises s (t ∷ ts) new r = elim (Bool-cases (leb s.step_order t.step_order)) [
  | inl e ↦
      let below : s.step_order < t.step_order = ground (arith, new.0) in
      rw e ((below, All-weaken _ _ (λ u h. omega (arith, below, h)) ts r.0), r)
  | inr e ↦ rw e (
    All-insert_step (λ u. t.step_order < u.step_order) s ts (ground arith) r.0,
    insert_step-Rises s ts new.1 r.1,
  )
]

step_rows-fresh :
    (k i : ℕ) (ss : List EscalationStepCreate)
    → elem k (orders ss) ≡ false
    → All (λ t. t.step_order ≢ k) (step_rows i ss)
unfolding step_rows
step_rows-fresh k i [] h = tt
step_rows-fresh k i (s ∷ ss) h =
    All-insert_step (λ t. t.step_order ≢ k) (step_row i s) (step_rows (suc i) ss)
      (λ e. ground arith) (step_rows-fresh k (suc i) ss (ground arith))

step_rows-Rises :
    (i : ℕ) (ss : List EscalationStepCreate) → orders_unique ss ≡ true → Rises (step_rows i ss)
unfolding step_rows
step_rows-Rises i [] h = tt
step_rows-Rises i (s ∷ ss) h =
    insert_step-Rises (step_row i s) (step_rows (suc i) ss)
      (step_rows-fresh s.step_order (suc i) ss (ground arith))
      (step_rows-Rises (suc i) ss (ground arith))

-- A payload that the schema accepts is stored, by `create` and by `replace`, as a ladder whose orders
-- rise strictly.
pub policy-Rises :
    (id i created_at owner_id : ℕ) (old : EscalationPolicy) (payload : EscalationPolicyCreate)
    → is_valid_policy payload ≡ true
    → Rises (create_policy id i created_at owner_id payload).steps
      × Rises (replace_policy i old payload).steps
unfolding create_policy replace_policy is_valid_policy
policy-Rises id i created_at owner_id old payload h =
    let rises = step_rows-Rises i payload.steps (ground arith) in (rises, rises)
