-- ===== src/Policy/Rules.antt =====
-- Policies, their normalization and their verdicts (internal/host/network/policy.go). What the code calls of netip and strings is a
-- parameter. A target's characters are read as its bytes: a byte of a longer rune is no letter, digit
-- or dash either, so both readings reject it.
use hostel.Base.{
  ℕ, String, Bool, false, not, ◌&&◌, ◌||◌, Option, none, some, List, [], ◌∷◌, if◌then◌else◌, ltb,
  leb, ◌==◌, nat_eq, string_eq, length, any,
}
use hostel.Base.Result.{Result, ok, err, ◌>>=◌, ◌>>◌, return_if}

pub record Rule : Type 0 where
  pub action : String
  pub target : String

pub record Policy : Type 0 where
  pub default_action : String
  pub egress : List Rule

-- A nil slice or pointer is none.
pub record PolicyMutation : Type 0 where
  pub replace : Option Policy
  pub merge : Option (List Rule)
  pub remove : Option (List String)

pub data Error : Type 0 where
  invalid_policy unavailable apply_failed : Error

pub record Text : Type 1 where
  pub to_lower : String → String
  pub trim_space : String → String
  pub trim_suffix : String → String → String
  pub trim_prefix : String → String → String
  pub has_prefix : String → String → Bool
  pub has_suffix : String → String → Bool
  pub split : String → String → List String
  pub bytes : String → List ℕ
  -- s[1:]
  pub rest : String → String
  pub Addr : Type 0
  pub Prefix : Type 0
  pub parse_addr : String → Option Addr
  pub parse_prefix : String → Option Prefix
  pub zone : Addr → String
  -- ip.Unmap().String() and prefix.Masked().String()
  pub unmapped_text : Addr → String
  pub masked_text : Prefix → String
  -- netip.PrefixFrom(ip, ip.BitLen())
  pub host_prefix : Addr → Prefix
  pub contains : Prefix → Addr → Bool

abbrev pub is_action : String → Bool
is_action s = s == "allow" || s == "deny"

abbrev last : ℕ → List ℕ → ℕ
last x [] = x
last x (y ∷ ys) = last y ys

abbrev is_label_char : ℕ → Bool
is_label_char c = leb 97 c && leb c 122 || leb 48 c && leb c 57 || c == 45

-- The tests on one DNS label.
unfoldable pub is_label : List ℕ → Bool
is_label [] = false
is_label (c ∷ cs) =
    not (ltb 63 (length (c ∷ cs)) || c == 45 || last c cs == 45)
    && not (any (λ x. not (is_label_char x)) (c ∷ cs))

-- The default action where none is given: deny, but allow where there is no rule.
abbrev pub default_of : Policy → String
default_of p = elim p.egress [
  | [] ↦ if p.default_action == "" then "allow" else p.default_action
  | r ∷ rs ↦ if p.default_action == "" then "deny" else p.default_action
]

module _ (text : Text) where
  unfoldable pub normalize_target : String → Result Error String
  normalize_target raw =
      let target = text.to_lower (text.trim_suffix (text.trim_space raw) ".") in
      let name = text.trim_prefix target "*." in
      let labels = text.split name "." in
      let dns : Result Error String =
        if name == "" || ltb 253 (length (text.bytes name))
        then err invalid_policy
        else if any (λ l. not (is_label (text.bytes l))) labels
        then err invalid_policy
        else ok target in
      let prefix : Result Error String = elim (text.parse_prefix target) [
        | none ↦ dns
        | some p ↦ ok (text.masked_text p)
      ] in
      elim (text.parse_addr target) [
        | none ↦ prefix
        | some ip ↦ if text.zone ip == "" then ok (text.unmapped_text ip) else prefix
      ]

  -- The loop of NormalizePolicy over the rules.
  unfoldable pub normalize_rules : List Rule → Result Error (List Rule)
  normalize_rules [] = ok []
  normalize_rules (r ∷ rs) = do
    return_if (not (is_action r.action)) invalid_policy
    target ← normalize_target r.target
    rest ← normalize_rules rs
    ok ((record r { target = target }) ∷ rest)

  unfoldable pub normalize_policy : Policy → Result Error Policy
  normalize_policy p = do
    return_if (not (is_action (default_of p))) invalid_policy
    return_if (ltb 1024 (length p.egress)) invalid_policy
    rules ← normalize_rules p.egress
    ok (record { default_action = default_of p; egress = rules })

  abbrev pub target_prefix : String → Option text.Prefix
  target_prefix target = elim (text.parse_addr target) [
    | some ip ↦ some (text.host_prefix ip)
    | none ↦ text.parse_prefix target
  ]

  -- Whether a rule is for the domain `name`.
  abbrev pub matches : String → Rule → Bool
  matches name r = elim (target_prefix r.target) [
    | some p ↦ false
    | none ↦
        if text.has_prefix r.target "*."
        then text.has_suffix name (text.rest r.target)
        else r.target == name
  ]

  -- The loop of domainAction.
  unfoldable pub scan_rules : String → String → List Rule → String
  scan_rules name action [] = action
  scan_rules name action (r ∷ rs) =
      let allowed = scan_rules name "allow" rs in
      let skipped = scan_rules name action rs in
      if matches name r then if r.action == "deny" then "deny" else allowed else skipped

  unfoldable pub domain_action : Policy → String → String
  domain_action p name =
      scan_rules (text.to_lower (text.trim_suffix name ".")) p.default_action p.egress

  unfoldable pub denies_ip : Policy → text.Addr → Bool
  denies_ip p ip =
      any
        (λ r. elim (target_prefix r.target) [
          | none ↦ false
          | some q ↦ r.action == "deny" && text.contains q ip
        ])
        p.egress
