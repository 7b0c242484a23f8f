-- ===== src/Policy/WellFormed.antt =====
-- The policies that policyControl.update of internal/host/network/policy.go commits.
use hostel.Base.{
  suc, ◌+◌, ◌%◌, ◌^◌, ◌≤◌, ◌<◌, ◌≡◌, refl, sym, ◌==◌, subst, String, Bool, true, false, not, List,
  [], ◌∷◌, ltb, string_eq, length, All, arith, Bool-cases, inl, inr,
}
use hostel.Base.Result.{Result, ok, err, >>=-eq-ok, return_if-eq-ok, Result-cases}
use hostel.Policy.Rules.{
  Rule, Policy, PolicyMutation, Error, invalid_policy, Text, is_action, normalize_target,
  normalize_rules, normalize_policy, default_of,
}
use hostel.Policy.Control.{
  PolicyControl, PolicyStatus, mode_of, status_of, apply_mutation, is_changed, update_policy,
  merged, removed, replaced,
}

module _ (text : Text) where
  -- Both actions are known, there are at most 1024 rules, and every target is a normalized one.
  abbrev pub IsNormal : Policy → Type 0
  IsNormal p =
      (is_action p.default_action ≡ true)
      × (length p.egress ≤ 1024)
      × All
          (λ r.
            (is_action r.action ≡ true)
            × ((raw : String) × (normalize_target text raw ≡ ok r.target)))
          p.egress

  normalize_rules-normal :
      (rs out : List Rule)
      → normalize_rules text rs ≡ ok out
      → (length out ≡ length rs)
        × All
            (λ r.
              (is_action r.action ≡ true)
              × ((raw : String) × (normalize_target text raw ≡ ok r.target)))
            out
  unfolding normalize_rules
  normalize_rules-normal [] out h =
      let same : [] ≡ out = ground arith in
      subst
        (λ o.
          (length o ≡ 0)
          × All
              (λ r.
                (is_action r.action ≡ true)
                × ((raw : String) × (normalize_target text raw ≡ ok r.target)))
              o)
        same (refl, tt)
  normalize_rules-normal (r ∷ rs) out h =
      let (known, h') = return_if-eq-ok (not (is_action r.action)) invalid_policy _ h in
      let (target, parsed, h'') = >>=-eq-ok (normalize_target text r.target) _ h' in
      let (rest, others, done) = >>=-eq-ok (normalize_rules text rs) _ h'' in
      let (long, all) = normalize_rules-normal rs rest others in
      let same : (record r { target = target }) ∷ rest ≡ out = ground arith in
      subst
        (λ o.
          (length o ≡ suc (length rs))
          × All
              (λ r.
                (is_action r.action ≡ true)
                × ((raw : String) × (normalize_target text raw ≡ ok r.target)))
              o)
        same (omega arith, ((ground arith, (r.target, parsed)), all))

  normalize_policy-IsNormal : (p q : Policy) → normalize_policy text p ≡ ok q → IsNormal q
  unfolding normalize_policy
  normalize_policy-IsNormal p q h =
      let (known, h') = return_if-eq-ok (not (is_action (default_of p))) invalid_policy _ h in
      let (short, h'') = return_if-eq-ok (ltb 1024 (length p.egress)) invalid_policy _ h' in
      let (rules, parsed, done) = >>=-eq-ok (normalize_rules text p.egress) _ h'' in
      let (long, all) = normalize_rules-normal p.egress rules parsed in
      let same : (let made : Policy = record { default_action = default_of p; egress = rules } in
            made)
          ≡ q =
        ground arith in
      subst IsNormal same (ground arith, ground arith, all)

  apply_mutation-IsNormal :
      (current p : Policy) (mutation : PolicyMutation)
      → apply_mutation text current mutation ≡ ok p
      → IsNormal p
  unfolding apply_mutation
  apply_mutation-IsNormal current p mutation h =
      let (next, first, h') =
        >>=-eq-ok (merged text (replaced current mutation.replace) mutation.merge) _ h in
      let (last, second, done) = >>=-eq-ok (removed text current next mutation.remove) _ h' in
      normalize_policy-IsNormal last p done

  abbrev pub IsSame : PolicyControl → PolicyControl → Type 0
  IsSame c' c =
      (c'.current ≡ c.current)
      × (c'.revision ≡ c.revision)
      × (c'.closed ≡ c.closed)
      × (c'.learned ≡ c.learned)

  -- The reported mode: a policy with rules is enforced, one without lets everything through or nothing.
  pub record ReportsMode (report : PolicyStatus) : Type 0 where
    pub ruled : 0 < length report.policy.egress → report.mode ≡ "enforcing"
    pub open_to_all :
        report.policy.egress ≡ []
        → report.policy.default_action ≡ "allow"
        → report.mode ≡ "allow_all"
    pub closed_to_all :
        report.policy.egress ≡ [] → report.policy.default_action ≡ "deny" → report.mode ≡ "deny_all"

  status_of-ReportsMode : (p : Policy) → ReportsMode (status_of p)
  unfolding status_of mode_of
  status_of-ReportsMode p = record {
    ruled = λ some_rules. ground arith;
    open_to_all = λ no_rules allowed. ground (arith, string_eq.same_iff p.default_action "allow");
    closed_to_all = λ no_rules denied.
        let off : (p.default_action == "allow") ≡ false =
          subst (λ d. (d == "allow") ≡ false) (sym denied) refl in
        ground (arith, no_rules, off);
  }

  -- The state and the answer that an update may leave.
  abbrev pub Updated :
      (Policy → Bool)
      → PolicyControl
      → PolicyMutation
      → PolicyControl
      → Result Error PolicyStatus
      → Type 0
  Updated apply c mutation c' (err e) = IsSame c' c
  Updated apply c mutation c' (ok report) =
      (report.policy ≡ c'.current)
      × ReportsMode report
      × (c.closed ≡ false)
      × (is_changed mutation ≡ false → IsSame c' c)
      × (is_changed mutation ≡ true
          → (apply_mutation text c.current mutation ≡ ok report.policy)
            × (apply report.policy ≡ true)
            × (c'.revision ≡ (c.revision + 1) % 2 ^ 64)
            × (c'.learned ≡ []))

  -- From a state whose policy is well formed, an update reaches one whose policy is well formed:
  -- known actions, at most 1024 rules, normalized targets. Where it fails, the state is unchanged.
  -- Where it succeeds with a change, the kernel took exactly the mutated policy, the revision went
  -- on and the learned addresses are dropped; without a change the state is unchanged. The answer
  -- reports the policy that is current then, and a mode that tells whether it has rules, and without
  -- rules whether it allows or denies everything.
  pub update_policy-Updated :
      (apply : Policy → Bool) (c : PolicyControl) (mutation : PolicyMutation)
      → IsNormal c.current
      → (let r = update_policy text apply c mutation in
          IsNormal r.0.current × Updated apply c mutation r.0 r.1)
  unfolding update_policy status_of
  update_policy-Updated apply c mutation normal = elim (Bool-cases c.closed) [
    | inl shut ↦ rw (shut, update_policy) (normal, (refl, refl, refl, refl))
    | inr serving ↦ elim (Bool-cases (is_changed mutation)) [
      | inr same ↦
          rw (serving, same, update_policy)
            (
              normal,
              (
                refl,
                status_of-ReportsMode c.current,
                refl,
                (λ h. (refl, refl, refl, refl)),
                (λ h. absurd (cc h)),
              ),
            )
      | inl changed ↦ elim (Result-cases (apply_mutation text c.current mutation)) [
        | inr (e, failed) ↦
            rw (serving, changed, failed, update_policy) (normal, (refl, refl, serving, refl))
        | inl (p, made) ↦ elim (Bool-cases (apply p)) [
          | inr refused ↦
              rw (serving, changed, made, refused, update_policy)
                (normal, (refl, refl, serving, refl))
          | inl taken ↦
              rw (serving, changed, made, taken, update_policy)
                (
                  apply_mutation-IsNormal c.current p mutation made,
                  (
                    refl,
                    status_of-ReportsMode p,
                    refl,
                    (λ h. absurd (cc h)),
                    (λ h. (made, taken, refl, refl)),
                  ),
                )
        ]
      ]
    ]
  ]
