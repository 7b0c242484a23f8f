-- ===== src/Volumes/Normal.antt =====
-- Volumes that NormalizeVolumes of internal/bed/volumes.go accepts, through its loop and its sort.
use hostel.Base.{
  String, ◌≡◌, true, false, not, ◌||◌, List, [], ◌∷◌, inl, inr, if◌then◌else◌, ◌==◌, string_eq, any,
  All, Bool-cases, arith, subst, sym, Option-cases, ◌∙◌,
}
use hostel.Base.Result.{ok, Result-cases, return_if-eq-ok}
use hostel.Volumes.Declaration.{
  VolumeSpec, Paths, is_some, is_persistence, paths_overlap, host_overlap, cleaned,
  is_bad_host_path, same_source, normalize_volume, normalize_loop, insert_volume, sort_volumes,
  normalize_volumes,
}

module _ (lib : Paths) where
  -- A declaration with a valid name, one source, a host path in its place and a known persistence.
  abbrev pub IsSound : VolumeSpec → Type 0
  IsSound v =
      (lib.is_volume_name v.name ≡ true)
      × (same_source (is_some v.managed) (is_some v.host_path) ≡ false)
      × (is_bad_host_path lib v ≡ false)
      × (is_persistence v.managed ≡ true)

  -- Two declarations of different names whose host paths do not overlap.
  abbrev pub AreApart : VolumeSpec → VolumeSpec → Type 0
  AreApart v other = ((other.name == v.name) ≡ false) × (host_overlap lib v other ≡ false)

  -- Every volume is sound, and any two are apart.
  abbrev pub IsNormal : List VolumeSpec → Type 0
  IsNormal [] = Unit
  IsNormal (v ∷ rest) = IsSound v × All (AreApart v) rest × IsNormal rest

  paths_overlap_comm : (a b : String) → paths_overlap lib a b ≡ paths_overlap lib b a
  unfolding paths_overlap
  paths_overlap_comm a b = ground (arith, string_eq.same_iff a b, string_eq.same_iff b a)

  host_overlap_comm : (v other : VolumeSpec) → host_overlap lib v other ≡ host_overlap lib other v
  host_overlap_comm v other = elim (Option-cases v.host_path) [
    | inl own ↦ elim (Option-cases other.host_path) [
      | inl theirs ↦ ground (arith, own, theirs)
      | inr (b, theirs) ↦ ground (arith, own, theirs)
    ]
    | inr (a, own) ↦ elim (Option-cases other.host_path) [
      | inl theirs ↦ ground (arith, own, theirs)
      | inr (b, theirs) ↦ ground (arith, own, theirs, paths_overlap_comm a b)
    ]
  ]

  AreApart-sym : (v other : VolumeSpec) → AreApart v other → AreApart other v
  AreApart-sym v other apart = (
    ground
        (arith, string_eq.same_iff v.name other.name, string_eq.same_iff other.name v.name, apart),
    host_overlap_comm other v ∙ apart.1,
  )

  None-AreApart :
      (v : VolumeSpec) (checked : List VolumeSpec)
      → any (λ other. other.name == v.name) checked ≡ false
      → any (host_overlap lib v) checked ≡ false
      → All (AreApart v) checked
  None-AreApart v [] names hosts = tt
  None-AreApart v (other ∷ checked) names hosts = (
    (ground (arith, names), ground (arith, hosts)),
    None-AreApart v checked (ground (arith, names)) (ground (arith, hosts)),
  )

  cleaned_keeps :
      (v : VolumeSpec)
      → ((cleaned lib v).name ≡ v.name)
        × ((cleaned lib v).managed ≡ v.managed)
        × (is_some (cleaned lib v).host_path ≡ is_some v.host_path)
  cleaned_keeps v = elim (Option-cases v.host_path) [
    | inl own ↦ (ground (arith, own), ground (arith, own), ground (arith, own))
    | inr (a, own) ↦ (ground (arith, own), ground (arith, own), ground (arith, own))
  ]

  normalize_volume-IsNormal :
      (v normal : VolumeSpec) (checked : List VolumeSpec)
      → IsNormal checked
      → normalize_volume lib v checked ≡ ok normal
      → IsNormal (normal ∷ checked)
  unfolding normalize_volume
  normalize_volume-IsNormal v normal checked before done =
      let named =
        return_if-eq-ok
          (not (lib.is_volume_name v.name)
            || (any (λ other. other.name == v.name) checked
                || same_source (is_some v.managed) (is_some v.host_path)))
          _ _ done in
      let placed = return_if-eq-ok (is_bad_host_path lib (cleaned lib v)) _ _ named.1 in
      let alone = return_if-eq-ok (any (host_overlap lib (cleaned lib v)) checked) _ _ placed.1 in
      let persisted = return_if-eq-ok (not (is_persistence v.managed)) _ _ alone.1 in
      let kept = cleaned_keeps v in
      let is_cleaned : cleaned lib v ≡ normal = ground (arith, persisted.1) in
      let distinct : any (λ other. other.name == v.name) checked ≡ false =
        ground (arith, named.0) in
      subst (λ w. IsNormal (w ∷ checked)) is_cleaned
        (
          (
            ground (arith, named.0, kept),
            ground (arith, named.0, kept),
            placed.0,
            ground (arith, persisted.0, kept),
          ),
          None-AreApart (cleaned lib v) checked
              (subst (λ name. any (λ other. other.name == name) checked ≡ false) (sym kept.0)
                distinct)
              alone.0,
          before,
        )

  normalize_loop-IsNormal :
      (volumes checked result : List VolumeSpec)
      → IsNormal checked
      → normalize_loop lib volumes checked ≡ ok result
      → IsNormal result
  unfolding normalize_loop
  normalize_loop-IsNormal [] checked result before done =
      subst IsNormal (ground (arith, done)) before
  normalize_loop-IsNormal (v ∷ rest) checked result before done =
      elim (Result-cases (normalize_volume lib v checked)) [
        | inl (normal, accepted) ↦
            normalize_loop-IsNormal rest (normal ∷ checked) result
              (normalize_volume-IsNormal v normal checked before accepted)
              (ground (arith, accepted, done))
        | inr (e, refused) ↦ absurd (ground (arith, refused, done))
      ]

  All-insert_volume :
      (v w : VolumeSpec) (rest : List VolumeSpec)
      → AreApart v w
      → All (AreApart v) rest
      → All (AreApart v) (insert_volume lib w rest)
  unfolding insert_volume
  All-insert_volume v w [] one others = (one, tt)
  All-insert_volume v w (first ∷ rest) one others =
      elim (Bool-cases (lib.is_before w.name first.name)) [
        | inl before ↦
            let same : w ∷ first ∷ rest ≡ (
                if lib.is_before w.name first.name
                then w ∷ first ∷ rest
                else first ∷ insert_volume lib w rest) =
              ground (arith, before) in
            subst (All (AreApart v)) same (one, others)
        | inr after ↦
            let same : first ∷ insert_volume lib w rest ≡ (
                if lib.is_before w.name first.name
                then w ∷ first ∷ rest
                else first ∷ insert_volume lib w rest) =
              ground (arith, after) in
            subst (All (AreApart v)) same (others.0, All-insert_volume v w rest one others.1)
      ]

  All-sort_volumes :
      (v : VolumeSpec) (rest : List VolumeSpec)
      → All (AreApart v) rest
      → All (AreApart v) (sort_volumes lib rest)
  unfolding sort_volumes
  All-sort_volumes v [] apart = tt
  All-sort_volumes v (w ∷ rest) apart =
      All-insert_volume v w (sort_volumes lib rest) apart.0 (All-sort_volumes v rest apart.1)

  insert_volume-IsNormal :
      (v : VolumeSpec) (rest : List VolumeSpec)
      → IsNormal (v ∷ rest)
      → IsNormal (insert_volume lib v rest)
  unfolding insert_volume
  insert_volume-IsNormal v [] normal = normal
  insert_volume-IsNormal v (first ∷ rest) (sound, (one, others), (first_sound, firsts, normal)) =
      elim (Bool-cases (lib.is_before v.name first.name)) [
        | inl before ↦
            let same : v ∷ first ∷ rest ≡ (
                if lib.is_before v.name first.name
                then v ∷ first ∷ rest
                else first ∷ insert_volume lib v rest) =
              ground (arith, before) in
            subst IsNormal same (sound, (one, others), (first_sound, firsts, normal))
        | inr after ↦
            let same : first ∷ insert_volume lib v rest ≡ (
                if lib.is_before v.name first.name
                then v ∷ first ∷ rest
                else first ∷ insert_volume lib v rest) =
              ground (arith, after) in
            subst IsNormal same (
              first_sound,
              All-insert_volume first v rest (AreApart-sym v first one) firsts,
              insert_volume-IsNormal v rest (sound, others, normal),
            )
      ]

  sort_volumes-IsNormal :
      (volumes : List VolumeSpec) → IsNormal volumes → IsNormal (sort_volumes lib volumes)
  unfolding sort_volumes
  sort_volumes-IsNormal [] normal = normal
  sort_volumes-IsNormal (v ∷ rest) (sound, apart, normal) =
      insert_volume-IsNormal v (sort_volumes lib rest)
        (sound, All-sort_volumes v rest apart, sort_volumes-IsNormal rest normal)

  -- What NormalizeVolumes accepts is normal: every volume has a valid name, exactly one source, an
  -- absolute host path other than the root where it borrows one, and a known persistence where it is
  -- managed; no two volumes have one name, and no two host paths overlap.
  pub normalize_volumes-IsNormal :
      (volumes result : List VolumeSpec)
      → normalize_volumes lib volumes ≡ ok result
      → IsNormal result
  unfolding normalize_volumes
  normalize_volumes-IsNormal volumes result done =
      elim (Result-cases (normalize_loop lib volumes [])) [
        | inl (checked, accepted) ↦
            let same : sort_volumes lib checked ≡ result = ground (arith, accepted, done) in
            subst IsNormal same (
              sort_volumes-IsNormal checked
                (normalize_loop-IsNormal volumes [] checked tt accepted))
        | inr (e, refused) ↦ absurd (ground (arith, refused, done))
      ]
