-- ===== src/Sequence/Run.antt =====
-- Sequence.Run of internal/bed/lifecycle.go. What a hook answers depends on the attempt: `hook` is
-- given the number of the hooks called before, over all runs, so that a retry may answer otherwise.
-- `cancelled` is the error of the context before that call. The hooks that were called are logged,
-- the latest first, each with the position of its participant and its answer.
use hostel.Base.{
  ℕ, zero, suc, ◌-◌, String, Bool, true, false, not, Option, none, some, List, [], ◌∷◌,
  if◌then◌else◌, ◌==◌, nat_eq, length,
}
use hostel.Base.Result.{Result, ok, err}

pub data Phase : Type 0 where
  recover_phase prepare_phase stop_phase release_phase forget_phase : Phase
  unknown : Phase

pub data Error : Type 0 where
  different_bed unknown_phase : Error
  context_error : Error
  hook_failed : String → Error

pub record Sequence : Type 0 where
  pub phase : Phase
  pub participants : List String
  pub next : ℕ
  pub bed : Option ℕ
  -- the hooks that were called so far, and their number
  pub log : List (ℕ × Bool)
  pub calls : ℕ

-- NewSequence
abbrev pub new_sequence : Phase → List String → Sequence
new_sequence phase participants = record {
  phase = phase;
  participants = participants;
  next = 0;
  bed = none;
  log = [];
  calls = 0;
}

abbrev pub is_known : Phase → Bool
is_known unknown = false
is_known _ = true

abbrev pub get_elem? : List String → ℕ → Option String
get_elem? [] i = none
get_elem? (x ∷ xs) zero = some x
get_elem? (x ∷ xs) (suc i) = get_elem? xs i

abbrev pub belongs_to_other : Option ℕ → ℕ → Bool
belongs_to_other none b = false
belongs_to_other (some a) b = not (a == b)

module _ (cancelled : ℕ → Bool) (hook : Phase → String → ℕ → ℕ → Bool) where
  -- The loop, with `n` participants left; `hook` says whether the call succeeds.
  unfoldable pub run_hooks : ℕ → ℕ → Sequence → Sequence × Result Error (Unit {0})
  run_hooks zero b s = (s, ok tt)
  run_hooks (suc n) b s =
      let answered = λ (answer : Bool). (s.next, answer) ∷ s.log in
      let rest =
        run_hooks n b (record s { next = suc s.next; log = answered true; calls = suc s.calls }) in
      elim (get_elem? s.participants s.next) [
        | none ↦ (s, ok tt)
        | some p ↦
            if cancelled s.calls
            then (s, err context_error)
            else if not (is_known s.phase)
            then (s, err unknown_phase)
            else if hook s.phase p b s.calls
            then rest
            else (record s { log = answered false; calls = suc s.calls }, err (hook_failed p))
      ]

  -- Sequence.Run
  unfoldable pub run : ℕ → Sequence → Sequence × Result Error (Unit {0})
  run b s =
      if belongs_to_other s.bed b
      then (s, err different_bed)
      else run_hooks (length s.participants - s.next) b (record s { bed = some b })
