-- ===== src/Policy/Control.antt =====
-- ApplyMutation and policyControl.update of internal/host/network/policy.go.
use hostel.Base.{
  ℕ, ◌+◌, ◌%◌, ◌^◌, String, Bool, true, false, ◌||◌, Option, none, some, List, [], ◌∷◌, ◌++◌,
  if◌then◌else◌, ◌==◌, string_eq, any,
}
use hostel.Base.Result.{Result, ok, err, ◌>>=◌}
use hostel.Policy.Rules.{
  Rule, Policy, PolicyMutation, Error, unavailable, apply_failed, Text, normalize_target,
  normalize_policy,
}

-- The rules whose target is not `target`.
unfoldable pub without : String → List Rule → List Rule
without target [] = []
without target (r ∷ rs) =
    let rest = without target rs in if r.target == target then rest else r ∷ rest

-- The state of one policyControl; an address that the DNS proxy learned is its text.
pub record PolicyControl : Type 0 where
  pub current : Policy
  pub revision : ℕ
  pub closed : Bool
  pub learned : List String

-- PolicyStatus, as far as update writes it.
pub record PolicyStatus : Type 0 where
  pub status : String
  pub mode : String
  pub enforcement_mode : String
  pub scope : String
  pub policy : Policy

-- The mode that update reports of a policy.
unfoldable pub mode_of : Policy → String
mode_of p = elim p.egress [
  | [] ↦ if p.default_action == "allow" then "allow_all" else "deny_all"
  | r ∷ rs ↦ "enforcing"
]

unfoldable pub status_of : Policy → PolicyStatus
status_of p = record {
  status = "ok";
  mode = mode_of p;
  enforcement_mode = "dns+nft";
  scope = "processes";
  policy = p;
}

abbrev pub replaced : Policy → Option Policy → Policy
replaced current none = current
replaced current (some p) = p

abbrev pub is_some {ℓ} : {A : Type ℓ} → Option A → Bool
is_some none = false
is_some (some a) = true

abbrev pub is_changed : PolicyMutation → Bool
is_changed mutation = is_some mutation.replace || is_some mutation.merge || is_some mutation.remove

module _ (text : Text) where
  -- The loop over mutation.Merge.
  unfoldable pub merge_rules : List Rule → List Rule → Result Error (List Rule)
  merge_rules egress [] = ok egress
  merge_rules egress (r ∷ rs) = do
    target ← normalize_target text r.target
    merge_rules (without target egress ++ ((record r { target = target }) ∷ [])) rs

  -- The set `remove` of ApplyMutation.
  unfoldable pub removed_targets : List String → Result Error (List String)
  removed_targets [] = ok []
  removed_targets (t ∷ ts) = do
    target ← normalize_target text t
    rest ← removed_targets ts
    ok (target ∷ rest)

  unfoldable pub keep_rules : List String → List Rule → List Rule
  keep_rules targets [] = []
  keep_rules targets (r ∷ rs) =
      let rest = keep_rules targets rs in
      if any (λ t. t == r.target) targets then rest else r ∷ rest

  abbrev pub merged : Policy → Option (List Rule) → Result Error Policy
  merged next none = ok next
  merged next (some rules) = do
    egress ← merge_rules next.egress rules
    ok (record next { egress = egress })

  -- The rules that stay are taken from the policy before the mutation.
  abbrev pub removed : Policy → Policy → Option (List String) → Result Error Policy
  removed current next none = ok next
  removed current next (some targets) = do
    set ← removed_targets targets
    ok (record next { egress = keep_rules set current.egress })

  unfoldable pub apply_mutation : Policy → PolicyMutation → Result Error Policy
  apply_mutation current mutation = do
    next ← merged (replaced current mutation.replace) mutation.merge
    last ← removed current next mutation.remove
    normalize_policy text last

  -- policyControl.update: `apply` says whether the kernel takes the policy.
  unfoldable pub update_policy :
      (Policy → Bool) → PolicyControl → PolicyMutation → PolicyControl × Result Error PolicyStatus
  update_policy apply c mutation =
      if c.closed
      then (c, err unavailable)
      else if is_changed mutation
      then elim (apply_mutation c.current mutation) [
        | err e ↦ (c, err e)
        | ok p ↦
            if apply p
            then (
              record c { current = p; revision = (c.revision + 1) % 2 ^ 64; learned = [] },
              ok (status_of p),
            )
            else (c, err apply_failed)
      ]
      else (c, ok (status_of c.current))
