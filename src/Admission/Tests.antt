-- ===== src/Admission/Tests.antt =====
-- A carrier whose memory passes both watermarks, and a window of three samples.
use hostel.Base.{
  ℕ, ◌-◌, ◌+◌, ◌≤◌, ◌≡◌, ◌⊎◌, refl, pos, true, false, some, [], ◌∷◌, ltb, leb, arith, ◌/◌, ◌*◌,
  ◌==◌, nat_eq,
}
use hostel.Base.Result.{ok}
use hostel.Admission.Window.{Floats, CpuUsageWindow, add_sample, IsOrdered, window_duration}
use hostel.Admission.Sampler.{
  AdmissionConfig, is_set, validate, validate_threshold, validate_order, CarrierSnapshot,
  PressureAdmission, sample, new_admission,
}
use hostel.Admission.Watermarks.{IsTrimmed, add_sample-IsOrdered, sample-watermarks}

-- Whole numbers in place of float64.
abbrev whole : Floats
whole = record {
  Float = ℕ;
  zero_float = 0;
  is_positive = λ x. ltb 0 x;
  is_same = λ x y. x == y;
  at_least = λ x n. leb n x;
  percentage = λ current limit. current * 100 / limit;
  windowed = λ first next start now usage limit. 0;
}

whole_monotone : (u m n : ℕ) → m ≤ n → leb n u ≡ true → leb m u ≡ true
whole_monotone u m n h reaches = ground arith

abbrev watermarks : AdmissionConfig
watermarks = record {
  cpu_pressure_threshold = pos 70;
  memory_pressure_threshold = pos 70;
  cpu_threshold = pos 90;
  memory_threshold = pos 90;
}

watermarks_valid : validate watermarks ≡ ok tt
unfolding validate validate_threshold validate_order
watermarks_valid = refl

abbrev sampler : PressureAdmission whole
sampler = new_admission whole watermarks

abbrev nearly_full : CarrierSnapshot whole
nearly_full = record { cpu_usage = 0; cpu_limit_cores = 0; memory_current = 95; memory_limit = 100 }

nearly_full_rejected : (sample whole sampler 5 (some nearly_full)).allowed ≡ false
unfolding sample new_admission add_sample
nearly_full_rejected = refl

sample-watermarks_example :
    let a' = sample whole sampler 5 (some nearly_full) in
    (a'.allowed ≡ a'.report.accepting)
    × (is_set (pos 70) ≡ true
        → is_set (pos 70) ≡ true
        → a'.allowed ≡ false
        → (a'.report.memory_pressure ≡ true) ⊎ (a'.report.cpu_pressure ≡ true))
    × (is_set (pos 90) ≡ false → is_set (pos 90) ≡ false → a'.allowed ≡ true)
unfolding new_admission
sample-watermarks_example =
    sample-watermarks whole sampler 5 (some nearly_full) whole_monotone watermarks_valid

abbrev second : ℕ
second = 1000000000

abbrev two_samples : CpuUsageWindow whole
two_samples = record {
  samples = record { at = second; usage = 0 } ∷ record { at = 2 * second; usage = 10 } ∷ [];
  limit = 1;
}

add_sample-IsOrdered_example :
    let r = (add_sample whole two_samples (13 * second) 20 1).0 in
    IsOrdered 0 r.samples (13 * second + 1) × IsTrimmed (13 * second - window_duration) r.samples
add_sample-IsOrdered_example =
    add_sample-IsOrdered whole two_samples (13 * second) 20 (3 * second) 1
      (omega arith, (omega arith, omega arith))
