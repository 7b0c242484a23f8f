-- ===== src/Policy/Verdict.antt =====
-- Policy.domainAction of internal/host/network/policy.go against a description by its rules as a set.
use hostel.Base.{
  ◌≡◌, refl, String, ◌&&◌, List, [], ◌∷◌, if◌then◌else◌, ◌==◌, string_eq, any, arith, Bool-cases,
  inl, inr,
}
use hostel.Policy.Rules.{Rule, Policy, Text, matches, scan_rules, domain_action}

module _ (text : Text) where
  scan_rules-verdict :
      (name action : String) (rs : List Rule)
      → scan_rules text name action rs ≡ (
          if any (λ r. matches text name r && r.action == "deny") rs
          then "deny"
          else if any (matches text name) rs
          then "allow"
          else action)
  unfolding scan_rules
  scan_rules-verdict name action [] = refl
  scan_rules-verdict name action (r ∷ rs) =
      let allowed = scan_rules-verdict name "allow" rs in
      let skipped = scan_rules-verdict name action rs in
      elim (Bool-cases (matches text name r)) [
        | inl hit ↦ rw hit (ground arith)
        | inr miss ↦ rw miss (ground arith)
      ]

  -- A name is denied if some rule for it denies it, else allowed if there is a rule for it, else
  -- treated by the default action, whatever the order of the rules.
  pub domain_action-verdict :
      (p : Policy) (name : String)
      → (let asked = text.to_lower (text.trim_suffix name ".") in
          domain_action text p name ≡ (
            if any (λ r. matches text asked r && r.action == "deny") p.egress
            then "deny"
            else if any (matches text asked) p.egress
            then "allow"
            else p.default_action))
  unfolding domain_action
  domain_action-verdict p name =
      scan_rules-verdict (text.to_lower (text.trim_suffix name ".")) p.default_action p.egress
