-- ===== src/Discovery/Reach.antt =====
-- `scan_rule` of app/core/services/discovery_service.py: the addresses that are probed.
use ghostmon.Base.{
  ◌≡◌, refl, Bool, true, false, String, Option, List, [], ◌∷◌, arith, if◌then◌else◌, ℕ, suc, sym,
  subst, All-weaken, ◌≤◌, length, All, has_text, str_eq_refl, ok, ok_inj, call_returned,
}
use ghostmon.Model.Template.{DiscoveryMethod}
use ghostmon.Probes.{Platform}
use ghostmon.Probes.Answers.{Network}
use ghostmon.Discovery.{check_reachable, reachable_of}

module _ (p : Platform) (net : Network) (method : DiscoveryMethod) (port : Option ℕ) where
  -- the address answers no probe, if it is not in the list
  abbrev pub Silent : List String → String → Type 0
  Silent reachable a = has_text a reachable ≡ false → check_reachable p net method port a ≡ ok false

  Silent-weaken : (a b : String) (ys : List String) → Silent ys b → Silent (a ∷ ys) b
  Silent-weaken a b ys h absent = h (ground (arith, absent))

  nothing : {ys : List String} → reachable_of p net method port [] ≡ ok ys → ok [] ≡ ok ys
  unfolding reachable_of
  nothing h = h

  -- what the first address and the others gave
  reachable_of-cons :
      (a : String) (xs ys : List String)
      → reachable_of p net method port (a ∷ xs) ≡ ok ys
      → (answered : Bool) × (others : List String) × (check_reachable p net method port a
          ≡ ok answered)
        × (reachable_of p net method port xs ≡ ok others)
        × ((if answered then a ∷ others else others) ≡ ys)
  unfolding reachable_of
  reachable_of-cons a xs ys h =
      let (answered, probe, rest) = call_returned (check_reachable p net method port a) _ h in
      let (others, probes, both) = call_returned (reachable_of p net method port xs) _ rest in
      (answered, others, probe, probes, ok_inj both)

  Silent-cons :
      (a : String) (xs others : List String) (answered : Bool)
      → check_reachable p net method port a ≡ ok answered
      → All (Silent others) xs
      → All (Silent (if answered then a ∷ others else others)) (a ∷ xs)
  Silent-cons a xs others true probe h = (
    λ absent. ground (arith, absent, str_eq_refl a),
    All-weaken (Silent others) (Silent (a ∷ others)) (λ b. Silent-weaken a b others) xs h,
  )
  Silent-cons a xs others false probe h = (λ absent. probe, h)

  pub reachable_of-Silent :
      (xs ys : List String) → reachable_of p net method port xs ≡ ok ys → All (Silent ys) xs
  reachable_of-Silent [] ys h = tt
  reachable_of-Silent (a ∷ xs) ys h =
      let (answered, others, probe, probes, both) = reachable_of-cons a xs ys h in
      subst (λ zs. All (Silent zs) (a ∷ xs)) both
        (Silent-cons a xs others answered probe (reachable_of-Silent xs others probes))

  pub reachable_of-none :
      (xs : List String)
      → All (λ a. check_reachable p net method port a ≡ ok false) xs
      → reachable_of p net method port xs ≡ ok []
  unfolding reachable_of
  reachable_of-none [] h = refl
  reachable_of-none (a ∷ xs) h = rw (h.0, reachable_of-none xs h.1) refl

  length-choose :
      (answered : Bool) (a : String) (others : List String)
      → length (if answered then a ∷ others else others) ≤ suc (length others)
  length-choose true a others = omega arith
  length-choose false a others = omega arith

  pub length-reachable_of :
      (xs ys : List String) → reachable_of p net method port xs ≡ ok ys → length ys ≤ length xs
  length-reachable_of [] ys h = rw (sym (ok_inj (nothing h))) (omega arith)
  length-reachable_of (a ∷ xs) ys h =
      let (answered, others, probe, probes, both) = reachable_of-cons a xs ys h in
      let shorter = length-reachable_of xs others probes in
      subst (λ zs. length zs ≤ suc (length xs)) both
        (omega (arith, shorter, length-choose answered a others))
