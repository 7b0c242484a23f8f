-- ===== src/Base/GoMap.antt =====
-- Go's built-in map as an association list. Iteration order is that of the list; no operation of
-- the model depends on it but through facts that hold of every order.
use Prim.Native.Nat.{ℕ, ◌+◌}
use mathlib.Core.Path.{◌≡◌, refl, ap}
use mathlib.Core.Logic.{inl, inr}
use mathlib.Core.Bool.{Bool, true, false}
use mathlib.Core.Option.{Option, none, some}
use mathlib.Core.List.{List, [], ◌∷◌}
use native.Mathlib.Omega.{arith}
use hostel.Base.Tests.{if◌then◌else◌, Bool-cases}
use hostel.Base.Eq.{HasEq, ◌==◌}

abbrev pub GoMap {ℓ κ} : Type ℓ → Type κ → Type (ℓ ⊔ κ)
GoMap K V = List (K × V)

abbrev pub to_nat : Bool → ℕ
to_nat true = 1
to_nat false = 0

module _ {ℓ κ} {K : Type ℓ} {V : Type κ} ⦃e : HasEq K⦄ where
  -- m[k]
  unfoldable pub lookup : K → GoMap K V → Option V
  lookup key [] = none
  lookup key ((first, value) ∷ rest) = if first == key then some value else lookup key rest

  -- m[k] = v
  unfoldable pub insert : K → V → GoMap K V → GoMap K V
  insert key value [] = (key, value) ∷ []
  insert key value ((first, old) ∷ rest) =
      if first == key then (key, value) ∷ rest else (first, old) ∷ insert key value rest

  -- delete(m, k)
  unfoldable pub delete : K → GoMap K V → GoMap K V
  delete k [] = []
  delete k ((j, v) ∷ m) = let rest = delete k m in if j == k then rest else (j, v) ∷ rest

  -- How many entries pass a test; `len` is the count of them all.
  unfoldable pub count : (V → Bool) → GoMap K V → ℕ
  count p [] = 0
  count p ((j, v) ∷ m) = to_nat (p v) + count p m

  -- Every key stands once.
  abbrev pub IsMap : GoMap K V → Type κ
  IsMap [] = Unit
  IsMap ((j, v) ∷ m) = (lookup j m ≡ none) × IsMap m

  pub lookup-insert :
      (k other : K) (v : V) (m : GoMap K V)
      → lookup other (insert k v m) ≡ (if k == other then some v else lookup other m)
  unfolding lookup insert
  lookup-insert k other v [] = refl
  lookup-insert k other v ((i, w) ∷ m) =
      ground
        (lookup-insert k other v m, e.same_iff i k, e.same_iff i other, e.same_iff k other, arith)

  pub lookup-delete :
      (k j : K) (m : GoMap K V) → lookup j (delete k m) ≡ (if k == j then none else lookup j m)
  unfolding lookup delete
  lookup-delete k j [] = ground arith
  lookup-delete k j ((i, w) ∷ m) =
      ground (arith, e.same_iff k j, e.same_iff i k, e.same_iff i j, lookup-delete k j m)

  pub insert-IsMap : (k : K) (v : V) (m : GoMap K V) → IsMap m → IsMap (insert k v m)
  unfolding insert
  insert-IsMap k v [] h = (unfold lookup in refl, tt)
  insert-IsMap k v ((i, w) ∷ m) h = elim (Bool-cases (i == k)) [
    | inl same ↦ rw same (ground (arith, e.same_iff i k), h.1)
    | inr other ↦ rw other (
      ground (arith, lookup-insert k i v m, e.same_iff k i, e.same_iff i k),
      insert-IsMap k v m h.1,
    )
  ]

  pub delete-IsMap : (k : K) (m : GoMap K V) → IsMap m → IsMap (delete k m)
  unfolding delete
  delete-IsMap k [] h = tt
  delete-IsMap k ((i, w) ∷ m) h = elim (Bool-cases (i == k)) [
    | inl same ↦ rw same (delete-IsMap k m h.1)
    | inr other ↦ rw other (ground (arith, lookup-delete k i m), delete-IsMap k m h.1)
  ]

  pub count-insert_new :
      (p : V → Bool) (k : K) (v : V) (m : GoMap K V)
      → lookup k m ≡ none
      → count p (insert k v m) ≡ count p m + to_nat (p v)
  unfolding count insert lookup
  count-insert_new p k v [] h = ground arith
  count-insert_new p k v ((i, w) ∷ m) h = ground (arith, count-insert_new p k v m)

  pub count-insert_old :
      (p : V → Bool) (k : K) (v old : V) (m : GoMap K V)
      → lookup k m ≡ some old
      → count p (insert k v m) + to_nat (p old) ≡ count p m + to_nat (p v)
  unfolding count insert lookup
  count-insert_old p k v old [] h = ground arith
  count-insert_old p k v old ((i, w) ∷ m) h = ground (arith, count-insert_old p k v old m)

  delete_absent : (k : K) (m : GoMap K V) → lookup k m ≡ none → delete k m ≡ m
  unfolding delete lookup
  delete_absent k [] h = refl
  delete_absent k ((i, w) ∷ m) h = ground (arith, delete_absent k m)

  pub count-delete :
      (p : V → Bool) (k : K) (old : V) (m : GoMap K V)
      → IsMap m
      → lookup k m ≡ some old
      → count p (delete k m) + to_nat (p old) ≡ count p m
  unfolding count delete lookup
  count-delete p k old [] u h = ground arith
  count-delete p k old ((i, w) ∷ m) u h =
      ground (arith, count-delete p k old m u.1, delete_absent k m, e.same_iff i k)

  pub count-delete_absent :
      (p : V → Bool) (k : K) (m : GoMap K V) → lookup k m ≡ none → count p (delete k m) ≡ count p m
  count-delete_absent p k m h = ap (count p) (delete_absent k m h)

  pub delete-insert_new :
      (k : K) (v : V) (m : GoMap K V) → lookup k m ≡ none → delete k (insert k v m) ≡ m
  unfolding delete insert lookup
  delete-insert_new k v [] h = ground (e.same_iff k k, arith)
  delete-insert_new k v ((i, w) ∷ m) h = ground (delete-insert_new k v m, e.same_iff i k, arith)
