-- ===== src/Store/Layout.antt =====
-- internal/bed/store/sync/auto.go, store.go and kind.go: layouts, kinds and the interface of a store.
use hostel.Base.{ℕ, ◌≡◌, String, true, Option, List, HasEq, ◌↔◌, nat_beq, arith}
use hostel.Base.Result.{Result}

-- storeLayout
pub data StoreLayout : Type 0 where
  cas pack tar restic : StoreLayout

-- Kind
pub data Kind : Type 0 where
  noop_kind auto_kind cas_kind pack_kind tar_kind restic_kind copy_kind : Kind

abbrev pub number_of : StoreLayout → ℕ
number_of cas = 0
number_of pack = 1
number_of tar = 2
number_of restic = 3

pub same_layout_iff : (a b : StoreLayout) → (nat_beq (number_of a) (number_of b) ≡ true) ↔ (a ≡ b)
same_layout_iff a b = ground arith

instance abbrev pub layout_eq : HasEq StoreLayout
layout_eq = record { same = λ a b. nat_beq (number_of a) (number_of b); same_iff = same_layout_iff }

pub record SnapshotInfo : Type 0 where
  pub generation : ℕ
  pub bytes : ℕ

-- What a backend or the routing reports; ErrConflict is told apart by its callers.
pub data StoreError : Type 0 where
  conflict : StoreLayout → ℕ → ℕ → StoreError
  inspect_failed : StoreError
  ambiguous : StoreLayout → StoreLayout → ℕ → StoreError
  not_found : StoreError
  bad_volume_roots : StoreError
  count_failed : StoreError
  delete_failed : StoreError
  backend_failed : String → StoreError

-- Store: the backends of the four layouts over one remote state.
pub record Stores (S : Type 0) : Type 0 where
  pub stat : StoreLayout → S → String → Result StoreError (Option SnapshotInfo)
  pub restore : StoreLayout → S → String → String → Result StoreError (Unit {0})
  pub persist : StoreLayout → S → String → String → ℕ → List String → Result StoreError S
  pub delete : StoreLayout → S → String → Option StoreError × S
