-- ===== src/Manager/Counts.antt =====
-- The two atomic counters of the manager against the map of Beds that they summarise.
use hostel.Base.{
  ℕ, ◌+◌, ◌%◌, ◌∙◌, String, ◌≡◌, refl, sym, ap, ◌≢◌, Bool, true, false, some, [], ◌∷◌, arith, All,
  string_eq, nat_eq, ◌==◌, eq_iff, Bool-cases, inl, inr, length,
}
use hostel.Base.GoMap.{GoMap, lookup, count, IsMap, to_nat}
use hostel.Manager.State.{
  Manager, ManagedBed, u64, update, set_bed, is_current, pinned, adjust_pinned,
}

-- Every entry of the map stands under its Bed's name.
abbrev pub Keyed : (ℕ → ManagedBed) → GoMap String ℕ → Type 0
Keyed heap = All (λ e. (heap e.1).name ≡ e.0)

abbrev pub pinned_at : (ℕ → ManagedBed) → ℕ → Bool
pinned_at heap a = pinned (heap a)

pub record IsCounted (m : Manager) : Type 0 where
  pub keyed : Keyed m.heap m.beds
  pub unique : IsMap m.beds
  pub pinned_ok : m.pinned_beds ≡ count (pinned_at m.heap) m.beds % u64
  pub resident_ok : m.resident_beds ≡ length m.beds % u64

module _ (heap : ℕ → ManagedBed) (a : ℕ) where
  pub absent :
      (beds : GoMap String ℕ)
      → Keyed heap beds
      → IsMap beds
      → lookup (heap a).name beds ≢ some a
      → All (λ e. e.1 ≢ a) beds
  unfolding lookup
  absent [] k u h = tt
  absent ((j, c) ∷ beds) k u h = (
    λ e. h (ground (arith, e, eq_iff j (heap a).name)),
    absent beds k.1 u.1 (λ e. h (ground (arith, e, u.0, eq_iff j (heap a).name))),
  )

  pub count_elsewhere :
      (p q : ℕ → Bool)
      → ((x : ℕ) → x ≢ a → q x ≡ p x)
      → (beds : GoMap String ℕ) → All (λ e. e.1 ≢ a) beds
      → count q beds ≡ count p beds
  unfolding count
  count_elsewhere p q same [] h = refl
  count_elsewhere p q same ((j, c) ∷ beds) h =
      ground (arith, same c h.0, count_elsewhere p q same beds h.1)

  -- A change at one address changes the count by that Bed's own share.
  pub count_here :
      (p q : ℕ → Bool)
      → ((x : ℕ) → x ≢ a → q x ≡ p x)
      → (beds : GoMap String ℕ) → Keyed heap beds
      → IsMap beds
      → lookup (heap a).name beds ≡ some a
      → count q beds + to_nat (p a) ≡ count p beds + to_nat (q a)
  unfolding count lookup
  count_here p q same [] k u h = ground arith
  count_here p q same ((j, c) ∷ beds) k u h = elim (Bool-cases (j == (heap a).name)) [
    | inl here ↦
        let at : c ≡ a = ground (arith, h, here) in
        let rest : All (λ e. e.1 ≢ a) beds =
          absent beds k.1 u.1 (ground (arith, u.0, here, eq_iff j (heap a).name)) in
        ground (arith, at, count_elsewhere p q same beds rest)
    | inr there ↦
        let apart : c ≢ a = λ e. ground (arith, e, there, eq_iff j (heap a).name) in
        let found : lookup (heap a).name beds ≡ some a = ground (arith, h, there) in
        ground (arith, same c apart, count_here p q same beds k.1 u.1 found)
  ]

update-other : (h : ℕ → ManagedBed) (a : ℕ) (b : ManagedBed) (x : ℕ) → x ≢ a → update h a b x ≡ h x
unfolding update
update-other h a b x d = ground arith

pub update_self : (h : ℕ → ManagedBed) (a : ℕ) (b : ManagedBed) → update h a b a ≡ b
unfolding update
update_self h a b = ground arith

update-name :
    (h : ℕ → ManagedBed) (a : ℕ) (b : ManagedBed) (x : ℕ)
    → b.name ≡ (h a).name
    → (update h a b x).name ≡ (h x).name
unfolding update
update-name h a b x n = ground arith

-- Where the counter is off by exactly the change of this Bed's pinned fact, the adjustment mends it.
adjusted-IsCounted :
    (m : Manager) (a old : ℕ) (was : Bool)
    → Keyed m.heap m.beds
    → IsMap m.beds
    → m.resident_beds ≡ length m.beds % u64
    → m.pinned_beds ≡ old % u64
    → count (pinned_at m.heap) m.beds + to_nat was ≡ old + to_nat (pinned (m.heap a))
    → IsCounted (adjust_pinned m a was)
unfolding adjust_pinned
adjusted-IsCounted m a old true k u r p e = elim (Bool-cases (pinned (m.heap a))) [
  | inl now ↦ rw now (record {
    keyed = k;
    unique = u;
    resident_ok = r;
    pinned_ok = omega (arith, p, e, ap to_nat now);
  })
  | inr now ↦ rw now (record {
    keyed = k;
    unique = u;
    resident_ok = r;
    pinned_ok = omega (arith, p, e, ap to_nat now);
  })
]
adjusted-IsCounted m a old false k u r p e = elim (Bool-cases (pinned (m.heap a))) [
  | inl now ↦ rw now (record {
    keyed = k;
    unique = u;
    resident_ok = r;
    pinned_ok = omega (arith, p, e, ap to_nat now);
  })
  | inr now ↦ rw now (record {
    keyed = k;
    unique = u;
    resident_ok = r;
    pinned_ok = omega (arith, p, e, ap to_nat now);
  })
]

abbrev share : ℕ → ManagedBed → ℕ
share n b = n + to_nat (pinned b)

module _ (m : Manager) (a : ℕ) (b : ManagedBed) (named : b.name ≡ (m.heap a).name) where
  update-Keyed : (beds : GoMap String ℕ) → Keyed m.heap beds → Keyed (update m.heap a b) beds
  update-Keyed [] k = tt
  update-Keyed ((j, c) ∷ beds) k = (update-name m.heap a b c named ∙ k.0, update-Keyed beds k.1)

  update-count_current :
      IsCounted m
      → is_current m a ≡ true
      → count (pinned_at (update m.heap a b)) m.beds + to_nat (pinned (m.heap a))
        ≡ count (pinned_at m.heap) m.beds + to_nat (pinned b)
  unfolding is_current
  update-count_current v c =
      let found : lookup (m.heap a).name m.beds ≡ some a = ground (arith, c) in
      count_here m.heap a (pinned_at m.heap) (pinned_at (update m.heap a b))
        (λ x d. ap pinned (update-other m.heap a b x d)) m.beds v.keyed v.unique found
      ∙ ap (share (count (pinned_at m.heap) m.beds)) (update_self m.heap a b)

  update-count_stale :
      IsCounted m
      → is_current m a ≡ false
      → count (pinned_at (update m.heap a b)) m.beds ≡ count (pinned_at m.heap) m.beds
  unfolding is_current
  update-count_stale v c =
      count_elsewhere m.heap a (pinned_at m.heap) (pinned_at (update m.heap a b))
        (λ x d. ap pinned (update-other m.heap a b x d)) m.beds
        (absent m.heap a m.beds v.keyed v.unique (λ e. ground (arith, c, e)))

  -- A write that leaves the pinned fact alone needs no adjustment.
  pub set_bed-IsCounted : pinned b ≡ pinned (m.heap a) → IsCounted m → IsCounted (set_bed m a b)
  unfolding set_bed
  set_bed-IsCounted same v = record {
    keyed = update-Keyed m.beds v.keyed;
    unique = v.unique;
    pinned_ok = elim (Bool-cases (is_current m a)) [
      | inl c ↦ omega (arith, v.pinned_ok, update-count_current v c, ap to_nat same)
      | inr c ↦ omega (arith, v.pinned_ok, update-count_stale v c)
    ];
    resident_ok = v.resident_ok;
  }

  -- Nor does a write to a Bed that is no longer in the map.
  pub set_bed-IsCounted_stale : is_current m a ≡ false → IsCounted m → IsCounted (set_bed m a b)
  unfolding set_bed
  set_bed-IsCounted_stale c v = record {
    keyed = update-Keyed m.beds v.keyed;
    unique = v.unique;
    pinned_ok = v.pinned_ok ∙ ap (λ (t : ℕ). t % u64) (sym (update-count_stale v c));
    resident_ok = v.resident_ok;
  }

  -- `adjustPinnedLocked` keeps the counter exact, given the pinned fact from before the write.
  pub adjust_pinned-IsCounted :
      is_current m a ≡ true
      → IsCounted m
      → IsCounted (adjust_pinned (set_bed m a b) a (pinned (m.heap a)))
  unfolding set_bed
  adjust_pinned-IsCounted c v =
      adjusted-IsCounted (set_bed m a b) a (count (pinned_at m.heap) m.beds) (pinned (m.heap a))
        (update-Keyed m.beds v.keyed) v.unique v.resident_ok v.pinned_ok
        (update-count_current v c
          ∙ ap (share (count (pinned_at m.heap) m.beds)) (sym (update_self m.heap a b)))
