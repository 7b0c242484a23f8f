-- ===== src/Policy/Tests.antt =====
-- A policy that denies one host and allows the rest of its domain.
use hostel.Base.{
  ℕ, ◌≡◌, refl, String, Bool, true, false, ◌&&◌, ◌||◌, none, some, [], ◌∷◌, ◌==◌, string_eq,
  if◌then◌else◌, any, arith,
}
use hostel.Policy.Rules.{Policy, PolicyMutation, Text, matches, domain_action, scan_rules}
use hostel.Policy.Control.{PolicyControl, update_policy}
use hostel.Policy.Verdict.{domain_action-verdict}
use hostel.Policy.WellFormed.{IsNormal, Updated, update_policy-Updated}

-- Texts of the tests: lower case already, no address among them, and one wildcard.
abbrev plain : Text
plain = record {
  to_lower = λ s. s;
  trim_space = λ s. s;
  trim_suffix = λ s t. s;
  trim_prefix = λ s t. if s == "*.example.com" then "example.com" else s;
  has_prefix = λ s t. s == "*.example.com";
  has_suffix = λ s t. s == "api.example.com" || s == "bad.example.com";
  split = λ s t. if s == "example.com" then "example" ∷ "com" ∷ [] else s ∷ [];
  bytes = λ s. 97 ∷ 98 ∷ [];
  rest = λ s. ".example.com";
  Addr = ℕ;
  Prefix = ℕ;
  parse_addr = λ s. none;
  parse_prefix = λ s. none;
  zone = λ a. "";
  unmapped_text = λ a. "";
  masked_text = λ p. "";
  host_prefix = λ a. a;
  contains = λ p a. false;
}

abbrev one_denied : Policy
one_denied = record {
  default_action = "deny";
  egress =
      record { action = "allow"; target = "*.example.com" }
      ∷ record { action = "deny"; target = "bad.example.com" }
      ∷ [];
}

abbrev bad : String
bad = "bad.example.com"

domain_action-verdict_example : domain_action plain one_denied bad ≡ (
    if any (λ r. matches plain bad r && r.action == "deny") one_denied.egress
    then "deny"
    else if any (matches plain bad) one_denied.egress
    then "allow"
    else "deny")
domain_action-verdict_example = domain_action-verdict plain one_denied bad

abbrev denied : String
denied = "deny"

bad-denied : domain_action plain one_denied bad ≡ denied
unfolding domain_action scan_rules
bad-denied = refl

abbrev nothing_allowed : PolicyControl
nothing_allowed = record {
  current = record { default_action = "deny"; egress = [] };
  revision = 1;
  closed = false;
  learned = "10.0.0.1" ∷ [];
}

abbrev allow_example : PolicyMutation
allow_example = record {
  replace = none;
  merge = some (record { action = "allow"; target = "*.example.com" } ∷ []);
  remove = none;
}

abbrev accepts : Policy → Bool
accepts p = true

update_policy-Updated_example :
    let r = update_policy plain accepts nothing_allowed allow_example in
    IsNormal plain r.0.current × Updated plain accepts nothing_allowed allow_example r.0 r.1
update_policy-Updated_example =
    update_policy-Updated plain accepts nothing_allowed allow_example (refl, omega arith, tt)
