-- ===== src/Escalation/Rows.antt =====
-- The pass of `due_escalations` over the table of problems, and its cache of policies.
use ghostmon.Base.{
  ℕ, ◌≤◌, ◌≡◌, refl, true, Option, some, List, [], ◌∷◌, arith, ◌==◌, if◌then◌else◌, map, concat_map,
  Bool-cases, Option-cases, inl, inr, ==→eq, ap, All, All-weaken,
}
use ghostmon.Model.Problem.{ProblemEvent}
use ghostmon.Model.Channel.{NotificationChannel}
use ghostmon.Model.Escalation.{EscalationPolicy}
use ghostmon.Escalation.{
  Cache, Delivery, climb, cached, policy_of, enabled_policy, escalate, escalate_rows,
  due_escalations, is_waiting,
}
use ghostmon.Escalation.Climb.{climb-Climbs, climb_again, climb-frame}
use ghostmon.Escalation.Deliveries.{Sound, Climbs-Sound, Rising, Climbs-Rising}
use mathlib.Core.List.{Memᴰ}

-- every entry of the cache is the policy that the query returns
abbrev Correct : List EscalationPolicy → Cache → Type 0
Correct policies cache =
    (o : ℕ) (q : Option EscalationPolicy) → cached o cache ≡ some q → q ≡ enabled_policy o policies

cached_own :
    (o : ℕ) (q : Option EscalationPolicy) (cache : Cache) → cached o ((o, q) ∷ cache) ≡ some q
unfolding cached
cached_own o q cache = ground arith

Correct-insert :
    (policies : List EscalationPolicy) (cache : Cache) (o : ℕ)
    → Correct policies cache
    → Correct policies ((o, enabled_policy o policies) ∷ cache)
unfolding cached
Correct-insert policies cache o c k q h = elim (Bool-cases (o == k)) [
  | inl same ↦ ground (arith, ==→eq o k)
  | inr other ↦ c k q (ground arith)
]

policy_of-Correct :
    (policies : List EscalationPolicy) (cache : Cache) (o : ℕ)
    → Correct policies cache
    → ((policy_of policies cache o).0 ≡ enabled_policy o policies)
      × Correct policies (policy_of policies cache o).1
policy_of-Correct policies cache o c = elim (Option-cases (cached o cache)) [
  | inl miss ↦ unfold policy_of in rw (miss, policy_of) (refl, Correct-insert policies cache o c)
  | inr (q, hit) ↦ unfold policy_of in rw (hit, policy_of) (c o q hit, c)
]

module _ {F : Type 0} (policies : List EscalationPolicy) (channels : List NotificationChannel)
    (now : ℕ) where
  -- one problem: what the job does to it, with the policy asked from the database each time
  unfoldable pub pass : ProblemEvent F → ProblemEvent F × List (Delivery F)
  pass p =
      if is_waiting p then escalate channels now (enabled_policy p.owner_id policies) p else (p, [])

  escalate_rows-eq :
      (cache : Cache) (ps : List (ProblemEvent F))
      → Correct policies cache
      → escalate_rows policies channels now cache ps
        ≡ (map (λ p. (pass p).0) ps, concat_map (λ p. (pass p).1) ps)
  unfolding escalate_rows pass
  escalate_rows-eq cache [] c = refl
  escalate_rows-eq cache (p ∷ ps) c =
      let (right, c') = policy_of-Correct policies cache p.owner_id c in
      elim (Bool-cases (is_waiting p)) [
        | inl waits ↦
            rw (waits, right, escalate_rows-eq (policy_of policies cache p.owner_id).1 ps c')
        | inr done ↦ rw (done, escalate_rows-eq cache ps c)
      ]

  -- The pass with its cache is the pass of each problem by itself under the newest enabled policy of
  -- its owner, and the deliveries are those of the problems in order.
  pub due_escalations-eq :
      (ps : List (ProblemEvent F))
      → due_escalations policies channels now ps
        ≡ (map (λ p. (pass p).0) ps, concat_map (λ p. (pass p).1) ps)
  unfolding due_escalations
  due_escalations-eq ps = escalate_rows-eq [] ps (λ o q h. unfold cached in cc)

  pub pass-Rising :
      (p : ProblemEvent F) → Rising p.escalated_step (pass p).0.escalated_step (pass p).1
  unfolding pass escalate
  pass-Rising p = elim (Bool-cases (is_waiting p)) [
    | inr done ↦ rw done (omega arith)
    | inl waits ↦ rw waits (elim (Option-cases (enabled_policy p.owner_id policies)) [
      | inl none_found ↦ rw (none_found, escalate) (omega arith)
      | inr (policy, found) ↦
          rw (found, escalate)
            (Climbs-Rising channels now (climb-Climbs channels now p policy.steps))
    ])
  ]

  pub pass-frame :
      (p : ProblemEvent F) → (pass p).0 ≡ record p { escalated_step = (pass p).0.escalated_step }
  unfolding pass escalate
  pass-frame p = elim (Bool-cases (is_waiting p)) [
    | inr done ↦ rw done
    | inl waits ↦ rw waits (elim (Option-cases (enabled_policy p.owner_id policies)) [
      | inl none_found ↦ rw (none_found, escalate)
      | inr (policy, found) ↦ rw (found, escalate) (climb-frame channels now p policy.steps)
    ])
  ]

  -- The delivery `d` is made for the problem `p`, which is open and unacknowledged, by a due step of
  -- the newest enabled policy of its owner.
  pub record Legitimate (p : ProblemEvent F) (d : Delivery F) : Type 0 where
    pub waits : is_waiting p ≡ true
    pub policy : EscalationPolicy
    pub in_force : enabled_policy p.owner_id policies ≡ some policy
    pub sound : Sound channels now p policy.steps d

  pub pass-Legitimate : (p : ProblemEvent F) → All (Legitimate p) (pass p).1
  unfolding pass escalate
  pass-Legitimate p = elim (Bool-cases (is_waiting p)) [
    | inr done ↦ rw done tt
    | inl waits ↦ rw waits (elim (Option-cases (enabled_policy p.owner_id policies)) [
      | inl none_found ↦ rw (none_found, escalate) tt
      | inr (policy, found) ↦
          rw (found, escalate)
            (All-weaken (Sound channels now p policy.steps) (Legitimate p)
              (λ d s. record { waits = waits; policy = policy; in_force = found; sound = s })
              (climb channels now p policy.steps).1
              (Climbs-Sound channels now (climb-Climbs channels now p policy.steps)))
    ])
  ]

  -- some row of the table is the problem of the delivery
  abbrev pub FromRow : List (ProblemEvent F) → Delivery F → Type 0
  FromRow ps d = (p : ProblemEvent F) × Memᴰ p ps × Legitimate p d

module _ {F : Type 0} (policies : List EscalationPolicy) (channels : List NotificationChannel) where
  pass_again :
      (now n : ℕ) (p : ProblemEvent F)
      → n ≤ now
      → pass policies channels n (pass policies channels now p).0
        ≡ ((pass policies channels now p).0, [])
  unfolding pass escalate
  pass_again now n p l = elim (Bool-cases (is_waiting p)) [
    | inr done ↦ rw done (rw done)
    | inl waits ↦ rw waits (elim (Option-cases (enabled_policy p.owner_id policies)) [
      | inl none_found ↦ rw (none_found, escalate) (rw waits (rw (none_found, escalate)))
      | inr (policy, found) ↦
          rw (found, escalate)
            (let q = (climb channels now p policy.steps).0 in
              let frame = climb-frame channels now p policy.steps in
              let awaits : is_waiting q ≡ true = rw frame waits in
              let same : enabled_policy q.owner_id policies ≡ some policy = rw frame found in
              rw awaits (
                rw (same, escalate)
                  (climb_again channels now p policy.steps n q l
                    (ap (λ (x : ProblemEvent F). x.started_at) frame) refl)))
    ])
  ]

  again_rows :
      (now n : ℕ) (ps : List (ProblemEvent F))
      → n ≤ now
      → (map (λ p. (pass policies channels n p).0) (map (λ p. (pass policies channels now p).0) ps)
          ≡ map (λ p. (pass policies channels now p).0) ps)
        × (concat_map
              (λ p. (pass policies channels n p).1)
              (map (λ p. (pass policies channels now p).0) ps)
            ≡ [])
  again_rows now n [] l = (refl, refl)
  again_rows now n (p ∷ ps) l =
      let (rows, none_sent) = again_rows now n ps l in
      (rw (pass_again now n p l, rows), rw (pass_again now n p l, none_sent))

  -- A second pass with the same policies and channels, at the same time or an earlier one, delivers
  -- nothing and leaves the table as it is.
  pub due_escalations_again :
      (now n : ℕ) (ps : List (ProblemEvent F))
      → n ≤ now
      → due_escalations policies channels n (due_escalations policies channels now ps).0
        ≡ ((due_escalations policies channels now ps).0, [])
  due_escalations_again now n ps l =
      let (rows, none_sent) = again_rows now n ps l in
      rw (due_escalations-eq policies channels now ps)
        (rw (due_escalations-eq policies channels n) (rw (rows, none_sent)))
