-- ===== src/Prelude/Keys.antt =====
-- Boolean equality as an interface: the keys of the maps, and what `operator==` compares.
use Prim.Native.Nat.{ℕ}
use Prim.Native.String.{String}
use mathlib.Core.Path.{◌≡◌, refl}
use mathlib.Core.Logic.{◌↔◌}
use mathlib.Core.Bool.{Bool, true, false, ◌&&◌}
use mathlib.Core.List.{List, [], ◌∷◌}
use native.Mathlib.Omega.{arith}
use text.Mathlib.Text.{◌==◌ as str_eq}
use text.Mathlib.TextEquality.{eq_iff}
use oreo_kernel.Prelude.Tests.{nat_beq, nat_beq_iff}

-- A test of equality that decides it.
pub record Eq {ℓ} (K : Type ℓ) : Type ℓ where
  pub eqb : K → K → Bool
  pub eqb_iff : (x y : K) → (eqb x y ≡ true) ↔ (x ≡ y)

instance abbrev pub string_eq : Eq String
string_eq = record { eqb = str_eq; eqb_iff = eq_iff }

instance abbrev pub nat_eq : Eq ℕ
nat_eq = record { eqb = nat_beq; eqb_iff = nat_beq_iff }

infix 50 ◌==◌
abbrev pub ◌==◌ {ℓ} : {K : Type ℓ} ⦃same : Eq K⦄ → K → K → Bool
◌==◌ ⦃same⦄ = same.eqb

pub beq_refl {ℓ} : {K : Type ℓ} ⦃same : Eq K⦄ (x : K) → (x == x) ≡ true
beq_refl ⦃same⦄ x = (same.eqb_iff x x).1 refl

-- Strings as lists of bytes.
abbrev pub bytes_beq : List ℕ → List ℕ → Bool
bytes_beq [] [] = true
bytes_beq [] (b ∷ bs) = false
bytes_beq (a ∷ rest') [] = false
bytes_beq (a ∷ rest') (b ∷ bs) = let later = bytes_beq rest' bs in nat_beq a b && later

pub bytes_beq_iff : (xs ys : List ℕ) → (bytes_beq xs ys ≡ true) ↔ (xs ≡ ys)
bytes_beq_iff [] [] = ground arith
bytes_beq_iff [] (b ∷ bs) = ground arith
bytes_beq_iff (a ∷ rest') [] = ground arith
bytes_beq_iff (a ∷ rest') (b ∷ bs) = ground (arith, bytes_beq_iff rest' bs)

instance abbrev pub bytes_eq : Eq (List ℕ)
bytes_eq = record { eqb = bytes_beq; eqb_iff = bytes_beq_iff }
