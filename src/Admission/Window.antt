-- ===== src/Admission/Window.antt =====
-- internal/bed/resource/cpu_window.go. Instants and CPU times are nanoseconds since the zero time
-- and since the carrier's start. The arithmetic on float64 is a parameter: what the last expression of
-- add computes, and the two tests on a limit.
use hostel.Base.{
  ℕ, suc, ◌-◌, ◌≤◌, Bool, true, not, ◌||◌, Option, none, some, List, [], ◌∷◌, ◌++◌, if◌then◌else◌,
  ltb, leb,
}

pub record CpuUsageSample : Type 0 where
  pub at : ℕ
  pub usage : ℕ

pub record Floats : Type 1 where
  pub Float : Type 0
  pub zero_float : Float
  -- limit > 0, and limit == other
  pub is_positive : Float → Bool
  pub is_same : Float → Float → Bool
  -- x >= float64(n), for a percentage n
  pub at_least : Float → ℕ → Bool
  -- float64(current) / float64(limit) * 100
  pub percentage : ℕ → ℕ → Float
  -- the usage over the window, of its first two samples, its start, now, the CPU time and the limit
  pub windowed : CpuUsageSample → CpuUsageSample → ℕ → ℕ → ℕ → Float → Float

abbrev pub window_duration : ℕ
window_duration = 10000000000

abbrev pub last_sample : List CpuUsageSample → Option CpuUsageSample
last_sample [] = none
last_sample (s ∷ []) = some s
last_sample (s ∷ t ∷ ts) = last_sample (t ∷ ts)

-- The loop that drops samples while the second one is not after the cutoff.
unfoldable pub trim_samples : ℕ → List CpuUsageSample → List CpuUsageSample
trim_samples cutoff [] = []
trim_samples cutoff (s ∷ []) = s ∷ []
trim_samples cutoff (s ∷ t ∷ ts) =
    let rest = trim_samples cutoff (t ∷ ts) in if ltb cutoff t.at then s ∷ t ∷ ts else rest

module _ (floats : Floats) where
  pub record CpuUsageWindow : Type 0 where
    pub samples : List CpuUsageSample
    pub limit : floats.Float

  abbrev pub empty_window : CpuUsageWindow
  empty_window = record { samples = []; limit = floats.zero_float }

  -- Whether the history stays comparable with the sample that is added.
  abbrev pub is_comparable : CpuUsageWindow → ℕ → ℕ → floats.Float → Bool
  is_comparable w now usage limit = elim (last_sample w.samples) [
    | none ↦ true
    | some last ↦
        not (ltb usage last.usage || leb now last.at || not (floats.is_same limit w.limit))
  ]

  -- cpuUsageWindow.add
  unfoldable pub add_sample :
      CpuUsageWindow → ℕ → ℕ → floats.Float → CpuUsageWindow × Option floats.Float
  add_sample w now usage limit =
      let cutoff = now - window_duration in
      let history : List CpuUsageSample =
        if is_comparable w now usage limit then w.samples else [] in
      let kept = trim_samples cutoff (history ++ (record { at = now; usage = usage } ∷ [])) in
      let w' : CpuUsageWindow = record { samples = kept; limit = limit } in
      let answer : Option floats.Float = elim kept [
        | [] ↦ none
        | first ∷ later ↦ elim later [
          | [] ↦ none
          | next ∷ others ↦
              let start : ℕ = if ltb first.at cutoff then cutoff else first.at in
              some (floats.windowed first next start now usage limit)
        ]
      ] in
      if not (floats.is_positive limit) then (empty_window, none) else (w', answer)

-- The samples are in strict order of time, from `low` on, and end before `high`.
abbrev pub IsOrdered : ℕ → List CpuUsageSample → ℕ → Type 0
IsOrdered low [] high = low ≤ high
IsOrdered low (s ∷ ss) high = (low ≤ s.at) × IsOrdered (suc s.at) ss high
