-- ===== src/Prelude/Dict.antt =====
-- std::map and std::unordered_map as association lists, one entry for each key.
use mathlib.Core.Path.{◌≡◌, refl}
use mathlib.Core.Bool.{Bool, true, false}
use mathlib.Core.Option.{Option, none, some}
use mathlib.Core.List.{List, [], ◌∷◌}
use native.Mathlib.Omega.{arith}
use oreo_kernel.Prelude.Tests.{if◌then◌else◌}
use oreo_kernel.Prelude.Keys.{Eq, ◌==◌}

abbrev pub Dict {ℓ κ} : Type ℓ → Type κ → Type (ℓ ⊔ κ)
Dict K V = List (K × V)

module _ {ℓ κ} {K : Type ℓ} {V : Type κ} ⦃same : Eq K⦄ where
  -- m.find(key)
  unfoldable pub lookup : K → Dict K V → Option V
  lookup key [] = none
  lookup key (entry ∷ rest) = if entry.0 == key then some entry.1 else lookup key rest

  -- m[key] = value
  unfoldable pub insert : K → V → Dict K V → Dict K V
  insert key value [] = (key, value) ∷ []
  insert key value (entry ∷ rest) =
      let later = insert key value rest in
      if entry.0 == key then (key, value) ∷ rest else entry ∷ later

  -- m.erase(key)
  unfoldable pub erase : K → Dict K V → Dict K V
  erase key [] = []
  erase key (entry ∷ rest) =
      let later = erase key rest in if entry.0 == key then later else entry ∷ later

  -- m.count(key)
  unfoldable pub contains : K → Dict K V → Bool
  contains key m = elim (lookup key m) [ none ↦ false | some _ ↦ true ]

  pub lookup-erase :
      (gone key : K) (m : Dict K V)
      → lookup key (erase gone m) ≡ (if gone == key then none else lookup key m)
  unfolding lookup erase
  lookup-erase gone key [] = ground arith
  lookup-erase gone key ((i, w) ∷ rest) = ground (
    arith,
    lookup-erase gone key rest,
    same.eqb_iff gone key,
    same.eqb_iff i gone,
    same.eqb_iff i key,
  )

  pub lookup-insert :
      (new key : K) (value : V) (m : Dict K V)
      → lookup key (insert new value m) ≡ (if new == key then some value else lookup key m)
  unfolding lookup insert
  lookup-insert new key value [] = refl
  lookup-insert new key value ((i, w) ∷ rest) = ground (
    arith,
    lookup-insert new key value rest,
    same.eqb_iff new key,
    same.eqb_iff i new,
    same.eqb_iff i key,
  )

pub ruleset dict_laws = (lookup-insert, lookup-erase)
