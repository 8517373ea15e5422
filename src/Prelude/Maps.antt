-- ===== src/Prelude/Maps.antt =====
-- Dictionaries (Go's `map` and `sync.Map`) as association lists, with their laws in the form that
-- the tactics read.
use mathlib.Core.Path.{◌≡◌, refl}
use mathlib.Core.Logic.{inl, inr}
use mathlib.Core.Bool.{Bool, true, false, not, ◌&&◌, ◌||◌}
use mathlib.Core.Option.{Option, none, some}
use mathlib.Core.List.{List, [], ◌∷◌}
use Prim.Native.Nat.{suc}
use native.Mathlib.Omega.{arith}
use center_agent.Prelude.Booleans.{if◌then◌else◌, Bool-cases, Option-cases}
use center_agent.Prelude.Equality.{Eq, ◌==◌, ==_refl}
use center_agent.Prelude.Lists.{length}

abbrev pub Map {ℓ κ} : Type ℓ → Type κ → Type (ℓ ⊔ κ)
Map K V = List (K × V)

abbrev pub keys {ℓ κ} : {K : Type ℓ} {V : Type κ} → Map K V → List K
keys [] = []
keys ((k, v) ∷ m) = k ∷ keys m

module _ {ℓ κ} {K : Type ℓ} {V : Type κ} ⦃e : Eq K⦄ where
  unfoldable pub load : K → Map K V → Option V
  load k [] = none
  load k ((j, v) ∷ m) = if k == j then some v else load k m

  unfoldable pub store : K → V → Map K V → Map K V
  store k v [] = (k, v) ∷ []
  store k v ((j, w) ∷ m) = if k == j then (j, v) ∷ m else (j, w) ∷ store k v m

  unfoldable pub delete : K → Map K V → Map K V
  delete k [] = []
  delete k ((j, w) ∷ m) = let rest = delete k m in if k == j then rest else (j, w) ∷ rest

  -- No key stands twice.
  abbrev pub IsDistinct : Map K V → Type κ
  IsDistinct [] = Unit
  IsDistinct ((k, v) ∷ m) = (load k m ≡ none) × IsDistinct m

  pub load-nil : (k : K) → ◌≡◌ {A = Option V} (load k []) none
  unfolding load
  load-nil k = refl

  pub load-store :
      (k j : K) (v : V) (m : Map K V) → load j (store k v m) ≡ (if j == k then some v else load j m)
  unfolding load store
  load-store k j v [] = refl
  load-store k j v ((i, w) ∷ m) =
      ground (arith, e.equals_iff j k, e.equals_iff k i, e.equals_iff j i, load-store k j v m)

  pub load-store_self : (k : K) (v : V) (m : Map K V) → load k (store k v m) ≡ some v
  load-store_self k v m = rw (load-store, ==_refl k)

  pub load-delete :
      (k j : K) (m : Map K V) → load j (delete k m) ≡ (if j == k then none else load j m)
  unfolding load delete
  load-delete k j [] = elim (Bool-cases (j == k)) [ inl p ↦ rw p | inr p ↦ rw p ]
  load-delete k j ((i, w) ∷ m) =
      ground (arith, e.equals_iff j k, e.equals_iff k i, e.equals_iff j i, load-delete k j m)

  pub delete_absent : (k : K) (m : Map K V) → load k m ≡ none → delete k m ≡ m
  unfolding load delete
  delete_absent k [] h = refl
  delete_absent k ((i, w) ∷ m) h = ground (arith, delete_absent k m)

  -- To write what is there changes nothing.
  pub store_same : (k : K) (v : V) (m : Map K V) → load k m ≡ some v → store k v m ≡ m
  unfolding load store
  store_same k v [] h = ground arith
  store_same k v ((i, w) ∷ m) h = ground (arith, store_same k v m)

  -- To take a new entry out again restores the map.
  pub delete-store : (k : K) (v : V) (m : Map K V) → load k m ≡ none → delete k (store k v m) ≡ m
  unfolding load store delete
  delete-store k v [] h = ground (arith, ==_refl k)
  delete-store k v ((i, w) ∷ m) h = ground (arith, delete-store k v m)

  pub length-store_new :
      (k : K) (v : V) (m : Map K V) → load k m ≡ none → length (store k v m) ≡ suc (length m)
  unfolding load store
  length-store_new k v [] h = refl
  length-store_new k v ((i, w) ∷ m) h = ground (arith, length-store_new k v m)

  pub length-store_old :
      (k : K) (v w : V) (m : Map K V) → load k m ≡ some w → length (store k v m) ≡ length m
  unfolding load store
  length-store_old k v w0 [] h = ground arith
  length-store_old k v w0 ((i, u) ∷ m) h = ground (arith, length-store_old k v w0 m)

  abbrev pub has : K → Map K V → Bool
  has k m = elim (load k m) [ none ↦ false | some _ ↦ true ]

  pub has-store : (k j : K) (v : V) (m : Map K V) → has j (store k v m) ≡ (j == k || has j m)
  has-store k j v m = ground (arith, load-store k j v m)

  pub has-delete : (k j : K) (m : Map K V) → has j (delete k m) ≡ (not (j == k) && has j m)
  has-delete k j m = ground (arith, load-delete k j m)

  pub length-store :
      (k : K) (v : V) (m : Map K V)
      → length (store k v m) ≡ (if has k m then length m else suc (length m))
  length-store k v m = elim (Option-cases (load k m)) [
    | inl e ↦ ground (arith, length-store_new k v m e)
    | inr (w, e) ↦ ground (arith, length-store_old k v w m e)
  ]

  pub store-IsDistinct : (k : K) (v : V) (m : Map K V) → IsDistinct m → IsDistinct (store k v m)
  unfolding load store
  store-IsDistinct k v [] d = (refl, tt)
  store-IsDistinct k v ((i, w) ∷ m) d = elim (Bool-cases (k == i)) [
    | inl p ↦ rw p d
    | inr p ↦ rw p (
      ground (arith, load-store k i v m, e.equals_iff i k, e.equals_iff k i),
      store-IsDistinct k v m d.1,
    )
  ]

  -- What a test keeps of a map.
  abbrev pub restrict : (K → Bool) → Map K V → Map K V
  restrict p [] = []
  restrict p ((k, v) ∷ m) = let rest = restrict p m in if p k then (k, v) ∷ rest else rest

  pub load-restrict :
      (p : K → Bool) (j : K) (m : Map K V)
      → load j (restrict p m) ≡ (if p j then load j m else none)
  unfolding load
  load-restrict p j [] = elim (Bool-cases (p j)) [ inl q ↦ rw q | inr q ↦ rw q ]
  load-restrict p j ((k, v) ∷ m) = elim (Bool-cases (j == k)) [
    | inl q ↦
        let s : j ≡ k = (e.equals_iff j k).0 q in
        rw s (ground (arith, load-restrict p k m, ==_refl k))
    | inr q ↦ ground (arith, load-restrict p j m)
  ]
