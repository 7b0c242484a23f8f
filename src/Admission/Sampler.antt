-- ===== src/Admission/Sampler.antt =====
-- internal/bed/resource/admission.go: the configuration, one sample, and the cached verdict. The
-- text of a rejection is its dimension.
use hostel.Base.{
  ℕ, zero, suc, ℤ, pos, negsuc, is_negative, magnitude, Bool, true, false, not, ◌&&◌, ◌||◌, Option,
  none, some, List, [], ◌∷◌, ◌++◌, if◌then◌else◌, ltb, leb,
}
use hostel.Base.Result.{Result, ◌>>◌, return_if}
use hostel.Admission.Window.{Floats, CpuUsageWindow, empty_window, add_sample}

pub record AdmissionConfig : Type 0 where
  pub cpu_pressure_threshold : ℤ
  pub memory_pressure_threshold : ℤ
  pub cpu_threshold : ℤ
  pub memory_threshold : ℤ

pub data Error : Type 0 where
  bad_threshold pressure_not_lower : Error

-- A nonzero threshold, `> 0`
abbrev pub is_set : ℤ → Bool
is_set (pos zero) = false
is_set (pos (suc n)) = true
is_set (negsuc n) = false

abbrev pub is_outside : ℤ → Bool
is_outside t = is_negative t || ltb 100 (magnitude t)

abbrev pub is_misordered : ℤ → ℤ → Bool
is_misordered pressure admission =
    is_set pressure && is_set admission && leb (magnitude admission) (magnitude pressure)

unfoldable pub validate_threshold : ℤ → Result Error (Unit {0})
validate_threshold t = return_if (is_outside t) bad_threshold

unfoldable pub validate_order : ℤ → ℤ → Result Error (Unit {0})
validate_order pressure admission = return_if (is_misordered pressure admission) pressure_not_lower

-- AdmissionConfig.Validate
unfoldable pub validate : AdmissionConfig → Result Error (Unit {0})
validate cfg = do
  validate_threshold cfg.cpu_pressure_threshold
  validate_threshold cfg.memory_pressure_threshold
  validate_threshold cfg.cpu_threshold
  validate_threshold cfg.memory_threshold
  validate_order cfg.cpu_pressure_threshold cfg.cpu_threshold
  validate_order cfg.memory_pressure_threshold cfg.memory_threshold

pub data Dimension : Type 0 where
  memory cpu : Dimension

pub data Reason : Type 0 where
  no_reason waiting_for_window no_finite_limits snapshot_failed disabled : Reason
  reached : List Dimension → Reason

module _ (floats : Floats) where
  pub record CarrierSnapshot : Type 0 where
    pub cpu_usage : ℕ
    pub cpu_limit_cores : floats.Float
    pub memory_current : ℕ
    pub memory_limit : ℕ

  pub record AdmissionReport : Type 0 where
    pub cpu_pressure : Bool
    pub memory_pressure : Bool
    pub enabled : Bool
    pub available : Bool
    pub accepting : Bool
    pub reason : Reason
    pub cpu_available : Bool
    pub memory_available : Bool
    pub sampled_at : ℕ

  pub record PressureAdmission : Type 0 where
    pub cfg : AdmissionConfig
    pub cpu_window : CpuUsageWindow floats
    pub allowed : Bool
    pub report : AdmissionReport

  abbrev pub reaches : floats.Float → ℤ → Bool
  reaches usage threshold = is_set threshold && floats.at_least usage (magnitude threshold)

  -- newPressureAdmission
  unfoldable pub new_admission : AdmissionConfig → PressureAdmission
  new_admission cfg =
      let enabled =
        is_set cfg.cpu_pressure_threshold
        || is_set cfg.memory_pressure_threshold
        || is_set cfg.cpu_threshold
        || is_set cfg.memory_threshold in
      record {
        cfg = cfg;
        cpu_window = empty_window floats;
        allowed = true;
        report = record {
          cpu_pressure = false;
          memory_pressure = false;
          enabled = enabled;
          available = false;
          accepting = true;
          reason = if enabled then no_reason else disabled;
          cpu_available = false;
          memory_available = false;
          sampled_at = 0;
        };
      }

  abbrev pub watches_memory : AdmissionConfig → CarrierSnapshot → Bool
  watches_memory cfg snapshot =
      (is_set cfg.memory_pressure_threshold || is_set cfg.memory_threshold)
      && ltb 0 snapshot.memory_limit

  -- unavailableReason
  unfoldable pub unavailable_reason : AdmissionConfig → CarrierSnapshot → Reason
  unavailable_reason cfg snapshot =
      if watches_memory cfg snapshot
      then no_reason
      else if (is_set cfg.cpu_pressure_threshold || is_set cfg.cpu_threshold)
          && floats.is_positive snapshot.cpu_limit_cores
      then waiting_for_window
      else no_finite_limits

  abbrev is_nonempty : List Dimension → Bool
  is_nonempty [] = false
  is_nonempty (d ∷ ds) = true

  -- sample; none is a snapshot that fails.
  unfoldable pub sample : PressureAdmission → ℕ → Option CarrierSnapshot → PressureAdmission
  sample a now none = record a {
    cpu_window = empty_window floats;
    allowed = true;
    report = record {
      cpu_pressure = false;
      memory_pressure = false;
      enabled = true;
      available = false;
      accepting = true;
      reason = snapshot_failed;
      cpu_available = false;
      memory_available = false;
      sampled_at = now;
    };
  }
  sample a now (some snapshot) =
      let memory_available = watches_memory a.cfg snapshot in
      let memory_usage = floats.percentage snapshot.memory_current snapshot.memory_limit in
      let window = add_sample floats a.cpu_window now snapshot.cpu_usage snapshot.cpu_limit_cores in
      let measured : Bool = elim window.1 [ none ↦ false | some u ↦ true ] in
      let cpu_usage : floats.Float = elim window.1 [ none ↦ floats.zero_float | some u ↦ u ] in
      let cpu_available =
        (is_set a.cfg.cpu_pressure_threshold || is_set a.cfg.cpu_threshold) && measured in
      let memory_rejects : List Dimension =
        if memory_available && reaches memory_usage a.cfg.memory_threshold
        then memory ∷ []
        else [] in
      let cpu_rejects : List Dimension =
        if cpu_available && reaches cpu_usage a.cfg.cpu_threshold then cpu ∷ [] else [] in
      let rejected = memory_rejects ++ cpu_rejects in
      let available = cpu_available || memory_available in
      record a {
        cpu_window = window.0;
        allowed = not (is_nonempty rejected);
        report = record {
          cpu_pressure = cpu_available && reaches cpu_usage a.cfg.cpu_pressure_threshold;
          memory_pressure =
              memory_available && reaches memory_usage a.cfg.memory_pressure_threshold;
          enabled = true;
          available = available;
          accepting = not (is_nonempty rejected);
          reason =
              if is_nonempty rejected
              then reached rejected
              else if available
              then no_reason
              else unavailable_reason a.cfg snapshot;
          cpu_available = cpu_available;
          memory_available = memory_available;
          sampled_at = now;
        };
      }

  -- NoopAdmission
  unfoldable pub noop_admission : Reason → PressureAdmission
  noop_admission why = record {
    cfg = record {
      cpu_pressure_threshold = pos 0;
      memory_pressure_threshold = pos 0;
      cpu_threshold = pos 0;
      memory_threshold = pos 0;
    };
    cpu_window = empty_window floats;
    allowed = true;
    report = record {
      cpu_pressure = false;
      memory_pressure = false;
      enabled = false;
      available = false;
      accepting = true;
      reason = why;
      cpu_available = false;
      memory_available = false;
      sampled_at = 0;
    };
  }

  -- Check: the cached decision, whose reason is that of the report where it rejects.
  unfoldable pub check_admission : PressureAdmission → Bool × Reason
  check_admission a = (a.allowed, if a.allowed then no_reason else a.report.reason)
