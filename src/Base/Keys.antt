-- ===== src/Base/Keys.antt =====
-- Decidable equality as an interface: the keys of a `Map`, the strings that `===` compares.
use Prim.Native.Char.{code}
use Prim.Native.Nat.{ℕ}
use Prim.Native.String.{String}
use mathlib.Core.Path.{◌≡◌}
use mathlib.Core.Logic.{◌↔◌}
use mathlib.Core.Bool.{Bool, true, false, ◌&&◌}
use mathlib.Core.List.{List, [], ◌∷◌}
use native.Mathlib.Omega.{arith}
use file_share_app.Base.Tests.{eqb, eqb_iff}

pub record Eq {ℓ} (K : Type ℓ) : Type ℓ where
  -- `===`, and what it decides.
  pub same : K → K → Bool
  pub same_iff : (j k : K) → (same j k ≡ true) ↔ (j ≡ k)

infix 50 ◌==◌
abbrev pub ◌==◌ {ℓ} : {K : Type ℓ} ⦃keys : Eq K⦄ → K → K → Bool
◌==◌ ⦃keys⦄ = keys.same

-- Numbers as keys.
instance abbrev pub nat_eq : Eq ℕ
nat_eq = record { same = eqb; same_iff = eqb_iff }

-- The UTF-16 code units of a string.
abbrev pub Utf16 : Type 0
Utf16 = List ℕ

-- The units of a literal that stays within the basic plane.
abbrev pub units : String → Utf16
units String.[] = []
units (String.◌∷◌ c s) = code c ∷ units s

unfoldable pub utf16_beq : Utf16 → Utf16 → Bool
utf16_beq [] [] = true
utf16_beq (a ∷ s) (b ∷ t) = eqb a b && utf16_beq s t
utf16_beq _ _ = false

pub utf16_beq_iff : (s t : Utf16) → (utf16_beq s t ≡ true) ↔ (s ≡ t)
unfolding utf16_beq
utf16_beq_iff [] [] = ground arith
utf16_beq_iff [] (b ∷ t) = ground arith
utf16_beq_iff (a ∷ s) [] = ground arith
utf16_beq_iff (a ∷ s) (b ∷ t) = ground (arith, utf16_beq_iff s t)

instance abbrev pub utf16_eq : Eq Utf16
utf16_eq = record { same = utf16_beq; same_iff = utf16_beq_iff }
