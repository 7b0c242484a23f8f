-- ===== src/Admission/Watermarks.antt =====
-- The soft and the hard watermark of internal/bed/resource/admission.go, and the order of the samples
-- of cpu_window.go.
use hostel.Base.{
  ℕ, suc, ◌-◌, ◌≤◌, ◌<◌, ◌≡◌, ◌⊎◌, refl, ℤ, magnitude, Bool, true, false, not, ◌&&◌, Option, none,
  some, List, [], ◌∷◌, ◌++◌, ltb, arith, Bool-cases, inl, inr,
}
use hostel.Base.Result.{ok, return_if, return_if-eq-ok}
use hostel.Admission.Window.{
  CpuUsageSample, Floats, CpuUsageWindow, add_sample, trim_samples, last_sample, is_comparable,
  window_duration, IsOrdered,
}
use hostel.Admission.Sampler.{
  AdmissionConfig, Error, is_outside, is_misordered, bad_threshold, pressure_not_lower, is_set,
  validate, validate_threshold, validate_order, CarrierSnapshot, PressureAdmission, sample, reaches,
  watches_memory,
}

-- Every sample but the first is after the cutoff.
abbrev pub IsTrimmed : ℕ → List CpuUsageSample → Type 0
IsTrimmed cutoff [] = Unit
IsTrimmed cutoff (s ∷ []) = Unit
IsTrimmed cutoff (s ∷ t ∷ ts) = cutoff < t.at

IsOrdered-lower :
    (low low' high : ℕ) (ss : List CpuUsageSample)
    → low' ≤ low
    → IsOrdered low ss high
    → IsOrdered low' ss high
IsOrdered-lower low low' high [] h ordered = omega arith
IsOrdered-lower low low' high (s ∷ ss) h ordered = (omega (arith, ordered.0), ordered.1)

IsOrdered-below :
    (low high now : ℕ) (t : CpuUsageSample) (ts : List CpuUsageSample)
    → ((last : CpuUsageSample) → last_sample (t ∷ ts) ≡ some last → last.at < now)
    → IsOrdered low (t ∷ ts) high
    → low ≤ now
IsOrdered-below low high now t [] later ordered = omega (arith, later t refl, ordered.0)
IsOrdered-below low high now t (u ∷ us) later ordered =
    omega (arith, IsOrdered-below (suc t.at) high now u us later ordered.1, ordered.0)

IsOrdered-append :
    (low high now usage : ℕ) (ss : List CpuUsageSample)
    → low ≤ now
    → ((last : CpuUsageSample) → last_sample ss ≡ some last → last.at < now)
    → IsOrdered low ss high
    → IsOrdered low (ss ++ (record { at = now; usage = usage } ∷ [])) (suc now)
IsOrdered-append low high now usage [] h later ordered = (h, omega arith)
IsOrdered-append low high now usage (s ∷ []) h later ordered =
    (ordered.0, (later s refl, omega arith))
IsOrdered-append low high now usage (s ∷ t ∷ ts) h later ordered = (
  ordered.0,
  IsOrdered-append (suc s.at) high now usage (t ∷ ts)
      (IsOrdered-below (suc s.at) high now t ts later ordered.1) later ordered.1,
)

trim_samples-IsOrdered :
    (cutoff low high : ℕ) (ss : List CpuUsageSample)
    → IsOrdered low ss high
    → IsOrdered low (trim_samples cutoff ss) high × IsTrimmed cutoff (trim_samples cutoff ss)
unfolding trim_samples
trim_samples-IsOrdered cutoff low high [] ordered = (ordered, tt)
trim_samples-IsOrdered cutoff low high (s ∷ []) ordered = (ordered, tt)
trim_samples-IsOrdered cutoff low high (s ∷ t ∷ ts) ordered = elim (Bool-cases (ltb cutoff t.at)) [
  | inl inside ↦ rw inside (ordered, ground arith)
  | inr outside ↦
      let tail =
        IsOrdered-lower (suc s.at) low high (t ∷ ts) (omega (arith, ordered.0)) ordered.1 in
      rw outside (trim_samples-IsOrdered cutoff low high (t ∷ ts) tail)
]

return_if-ok : (test : Bool) (e : Error) → return_if test e ≡ ok tt → test ≡ false
return_if-ok true e h = cc
return_if-ok false e h = refl

-- The order of the thresholds that validation leaves.
validate_lower :
    (cfg : AdmissionConfig)
    → validate cfg ≡ ok tt
    → (is_set cfg.cpu_pressure_threshold ≡ true
        → is_set cfg.cpu_threshold ≡ true
        → magnitude cfg.cpu_pressure_threshold < magnitude cfg.cpu_threshold)
      × (is_set cfg.memory_pressure_threshold ≡ true
          → is_set cfg.memory_threshold ≡ true
          → magnitude cfg.memory_pressure_threshold < magnitude cfg.memory_threshold)
unfolding validate validate_threshold validate_order
validate_lower cfg h =
    let (a, h1) = return_if-eq-ok (is_outside cfg.cpu_pressure_threshold) bad_threshold _ h in
    let (b, h2) = return_if-eq-ok (is_outside cfg.memory_pressure_threshold) bad_threshold _ h1 in
    let (c, h3) = return_if-eq-ok (is_outside cfg.cpu_threshold) bad_threshold _ h2 in
    let (d, h4) = return_if-eq-ok (is_outside cfg.memory_threshold) bad_threshold _ h3 in
    let (cpu_order, h5) =
      return_if-eq-ok (is_misordered cfg.cpu_pressure_threshold cfg.cpu_threshold)
        pressure_not_lower _ h4 in
    let memory_order =
      return_if-ok (is_misordered cfg.memory_pressure_threshold cfg.memory_threshold)
        pressure_not_lower h5 in
    ((λ p q. ground (arith, cpu_order)), λ p q. ground (arith, memory_order))

module _ (floats : Floats) where
  reaches_lower :
      (u : floats.Float) (pressure admission : ℤ)
      → ((u : floats.Float) (m n : ℕ)
          → m ≤ n
          → floats.at_least u n ≡ true
          → floats.at_least u m ≡ true)
      → (is_set pressure ≡ true
          → is_set admission ≡ true
          → magnitude pressure < magnitude admission)
      → is_set pressure ≡ true
      → reaches floats u admission ≡ true
      → reaches floats u pressure ≡ true
  reaches_lower u pressure admission monotone order set hit =
      ground (arith, monotone u (magnitude pressure) (magnitude admission), order)

  -- From a window in strict order of time, adding a sample leaves a window in strict order of time,
  -- in which every sample but the first is younger than ten seconds.
  pub add_sample-IsOrdered :
      (w : CpuUsageWindow floats) (now usage high : ℕ) (limit : floats.Float)
      → IsOrdered 0 w.samples high
      → (let r = (add_sample floats w now usage limit).0 in
          IsOrdered 0 r.samples (suc now) × IsTrimmed (now - window_duration) r.samples)
  unfolding add_sample
  add_sample-IsOrdered w now usage high limit ordered =
      let cutoff = now - window_duration in
      elim (Bool-cases (not (floats.is_positive limit))) [
        | inl unlimited ↦ rw (unlimited, add_sample) (omega arith, tt)
        | inr limited ↦ elim (Bool-cases (is_comparable floats w now usage limit)) [
          | inl continued ↦
              let later : (last : CpuUsageSample)
                  → last_sample w.samples ≡ some last
                  → last.at < now =
                λ last found. ground arith in
              rw (limited, continued, add_sample)
                (trim_samples-IsOrdered cutoff 0 (suc now) _
                  (IsOrdered-append 0 high now usage w.samples (omega arith) later ordered))
          | inr restarted ↦
              rw (limited, restarted, add_sample)
                (trim_samples-IsOrdered cutoff 0 (suc now) (record { at = now; usage = usage } ∷ [])
                  (omega arith, omega arith))
        ]
      ]

  -- Under a validated configuration with both pressure thresholds set, and where a usage that
  -- reaches a percentage reaches every smaller one: a sample that rejects work also raises a
  -- pressure signal. Without hard thresholds every sample admits.
  pub sample-watermarks :
      (a : PressureAdmission floats) (now : ℕ) (snapshot : Option (CarrierSnapshot floats))
      → ((u : floats.Float) (m n : ℕ)
          → m ≤ n
          → floats.at_least u n ≡ true
          → floats.at_least u m ≡ true)
      → validate a.cfg ≡ ok tt
      → (let a' = sample floats a now snapshot in
          (a'.allowed ≡ a'.report.accepting)
          × (is_set a.cfg.memory_pressure_threshold ≡ true
              → is_set a.cfg.cpu_pressure_threshold ≡ true
              → a'.allowed ≡ false
              → (a'.report.memory_pressure ≡ true) ⊎ (a'.report.cpu_pressure ≡ true))
          × (is_set a.cfg.memory_threshold ≡ false
              → is_set a.cfg.cpu_threshold ≡ false
              → a'.allowed ≡ true))
  unfolding sample validate validate_threshold validate_order
  sample-watermarks a now none monotone valid = (refl, (λ m c h. absurd (cc h)), λ m c. refl)
  sample-watermarks a now (some snapshot) monotone valid = (
    refl,
    (λ mp cp refused.
        let window =
          add_sample floats a.cpu_window now snapshot.cpu_usage snapshot.cpu_limit_cores in
        let memory_usage = floats.percentage snapshot.memory_current snapshot.memory_limit in
        let cpu_usage : floats.Float = elim window.1 [ none ↦ floats.zero_float | some u ↦ u ] in
        let order = validate_lower a.cfg valid in
        let on_memory =
          reaches_lower memory_usage a.cfg.memory_pressure_threshold a.cfg.memory_threshold monotone
            order.1 mp in
        let on_cpu =
          reaches_lower cpu_usage a.cfg.cpu_pressure_threshold a.cfg.cpu_threshold monotone order.0
            cp in
        elim (Bool-cases (
          watches_memory floats a.cfg snapshot
          && reaches floats memory_usage a.cfg.memory_threshold)) [
            | inl hit ↦ inl (ground (arith, on_memory))
            | inr missed ↦ inr (ground (arith, on_cpu))
          ]),
    ground arith,
  )
