-- ===== src/Prelude/Dicts.antt =====
-- Python's `dict` in the order of insertion, as an association list with one entry for a key.
use mathlib.Core.Path.{◌≡◌, refl}
use mathlib.Core.Bool.{Bool, false, not, ◌&&◌, ◌||◌}
use mathlib.Core.List.{List, [], ◌∷◌, ◌++◌}
use mathlib.Core.Option.{Option, none, some}
use native.Mathlib.Omega.{arith}
use sqlite_reconcile.Prelude.Tests.{if◌then◌else◌}
use sqlite_reconcile.Prelude.Equality.{Eq, ◌==◌}

abbrev pub Dict {ℓ κ} : Type ℓ → Type κ → Type (ℓ ⊔ κ)
Dict K V = List (K × V)

module _ {ℓ κ} {K : Type ℓ} {V : Type κ} ⦃e : Eq K⦄ where
  -- `d.get(k)`
  abbrev pub lookup : Dict K V → K → Option V
  lookup [] k = none
  lookup ((j, v) ∷ m) k = if j == k then some v else lookup m k

  -- `k in d`
  abbrev pub has_key : Dict K V → K → Bool
  has_key [] k = false
  has_key ((j, v) ∷ m) k = j == k || has_key m k

  -- `d.get(k, default)`
  abbrev pub lookup_or : Dict K V → K → V → V
  lookup_or m k d = elim (lookup m k) [ none ↦ d | some v ↦ v ]

  -- `d[k] = v`: in place, or behind the last entry.
  abbrev pub insert : Dict K V → K → V → Dict K V
  insert [] k v = (k, v) ∷ []
  insert ((j, w) ∷ m) k v = if j == k then (j, v) ∷ m else (j, w) ∷ insert m k v

  -- `d.pop(k, None)`
  abbrev pub remove : Dict K V → K → Dict K V
  remove [] k = []
  remove ((j, w) ∷ m) k = if j == k then remove m k else (j, w) ∷ remove m k

  pub lookup-insert :
      (m : Dict K V) (k : K) (v : V) (j : K)
      → lookup (insert m k v) j ≡ (if k == j then some v else lookup m j)
  lookup-insert [] k v j = refl
  lookup-insert ((i, w) ∷ m) k v j =
      ground (arith, e.beq_iff i k, e.beq_iff k j, e.beq_iff i j, lookup-insert m k v j)

  pub lookup-remove :
      (m : Dict K V) (k j : K) → lookup (remove m k) j ≡ (if k == j then none else lookup m j)
  lookup-remove [] k j = ground arith
  lookup-remove ((i, w) ∷ m) k j =
      ground (arith, e.beq_iff i k, e.beq_iff k j, e.beq_iff i j, lookup-remove m k j)

module _ {ℓ κ} {K : Type ℓ} {V : Type κ} ⦃e : Eq K⦄ where
  pub lookup_or-insert :
      (m : Dict K V) (k : K) (v : V) (j : K) (d : V)
      → lookup_or (insert m k v) j d ≡ (if k == j then v else lookup_or m j d)
  lookup_or-insert m k v j d = ground (arith, lookup-insert m k v j)

  pub lookup_or-remove :
      (m : Dict K V) (k j : K) (d : V)
      → lookup_or (remove m k) j d ≡ (if k == j then d else lookup_or m j d)
  lookup_or-remove m k j d = ground (arith, lookup-remove m k j)

  pub has_key-insert :
      (m : Dict K V) (k : K) (v : V) (j : K) → has_key (insert m k v) j ≡ (k == j || has_key m j)
  has_key-insert [] k v j = refl
  has_key-insert ((i, w) ∷ m) k v j =
      ground (arith, e.beq_iff i k, e.beq_iff k j, e.beq_iff i j, has_key-insert m k v j)

  pub has_key-remove :
      (m : Dict K V) (k j : K) → has_key (remove m k) j ≡ (not (k == j) && has_key m j)
  has_key-remove [] k j = ground arith
  has_key-remove ((i, w) ∷ m) k j =
      ground (arith, e.beq_iff i k, e.beq_iff k j, e.beq_iff i j, has_key-remove m k j)

-- `d.setdefault(k, []).append(v)`
abbrev pub append_to {ℓ κ} :
    {K : Type ℓ} {V : Type κ} ⦃e : Eq K⦄ → Dict K (List V) → K → V → Dict K (List V)
append_to m k v = insert m k (lookup_or m k [] ++ v ∷ [])
