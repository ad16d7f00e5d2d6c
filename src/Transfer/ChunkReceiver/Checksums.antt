-- ===== src/Transfer/ChunkReceiver/Checksums.antt =====
-- `checksumsMatch` decides equality of the decoded digests.
use Prim.Native.Nat.{bit_or, bit_xor}
use file_share_app.Base.{
  ℕ, zero, suc, ◌<◌, ◌≤◌, ◌≡◌, ◌↔◌, refl, ap₂, Bool, true, not, ◌&&◌, ◌||◌, List, [], ◌∷◌, length,
  All, eqb, eqb_iff, ltb, arith, Bool-cases, inl, inr, some, Utf16,
}
use file_share_app.Transfer.Crypto.{Crypto}
use file_share_app.Transfer.ChunkReceiver.{difference, checksums_match, compare_bytes}

-- Whether a test holds of every number up to a bound.
up_to : (ℕ → Bool) → ℕ → Bool
up_to test zero = test zero
up_to test (suc bound) = up_to test bound && test (suc bound)

up_to_sound : (test : ℕ → Bool) (bound m : ℕ) → m ≤ bound → up_to test bound ≡ true → test m ≡ true
unfolding up_to
up_to_sound test zero zero le e = e
up_to_sound test zero (suc m) le e = absurd (omega arith)
up_to_sound test (suc bound) m le e = elim (Bool-cases (eqb m (suc bound))) [
  | inl last ↦ let p : m ≡ suc bound = (eqb_iff _ _).0 last in rw p (ground arith)
  | inr before ↦ up_to_sound test bound m (ground arith) (ground arith)
]

-- The bits of two bytes: a disjunction is zero only if both are, an exclusive one only if they are
-- equal; both stay bytes.
fits : ℕ → ℕ → Bool
fits a b =
    (not (eqb (bit_or a b) 0) || (eqb a 0 && eqb b 0))
    && ((not (eqb (bit_xor a b) 0) || eqb a b) && (ltb (bit_or a b) 256 && ltb (bit_xor a b) 256))

fits_table : up_to (λ a. up_to (fits a) 255) 255 ≡ true
unfolding up_to fits
fits_table = refl

abbrev BitFacts : ℕ → ℕ → Type 0
BitFacts a b =
    (bit_or a b ≡ 0 → (a ≡ 0) × (b ≡ 0))
    × (bit_xor a b ≡ 0 → a ≡ b)
    × (bit_or a b < 256)
    × (bit_xor a b < 256)

read_fits : (a b : ℕ) → fits a b ≡ true → BitFacts a b
unfolding fits
read_fits a b h = ground arith

bit_facts : (a b : ℕ) → a < 256 → b < 256 → BitFacts a b
bit_facts a b ha hb = read_fits a b (
    up_to_sound (fits a) 255 b (omega arith)
      (up_to_sound (λ x. up_to (fits x) 255) 255 a (omega arith) fits_table))

xor_self_table : up_to (λ a. eqb (bit_xor a a) 0) 255 ≡ true
unfolding up_to
xor_self_table = refl

xor_self : (a : ℕ) → a < 256 → bit_xor a a ≡ 0
xor_self a h =
    (eqb_iff _ 0).0 (up_to_sound (λ x. eqb (bit_xor x x) 0) 255 a (omega arith) xor_self_table)

-- The bytes of a decoded digest.
abbrev pub AreBytes : List ℕ → Type 0
AreBytes = All (λ b. b < 256)

difference-zero :
    (d : ℕ) (s t : List ℕ)
    → d < 256
    → AreBytes s
    → AreBytes t
    → length s ≡ length t
    → difference d s t ≡ 0
    → (d ≡ 0) × (s ≡ t)
unfolding difference
difference-zero d [] [] hd hs ht e z = (z, refl)
difference-zero d [] (b ∷ t) hd hs ht e z = absurd (omega arith)
difference-zero d (a ∷ s) [] hd hs ht e z = absurd (omega arith)
difference-zero d (a ∷ s) (b ∷ t) hd (ha, hs) (hb, ht) e z =
    let (_, same, _, small) = bit_facts a b ha hb in
    let (split, _, bound, _) = bit_facts d (bit_xor a b) hd small in
    let (zero_or, rest) =
      difference-zero (bit_or d (bit_xor a b)) s t bound hs ht (omega arith) z in
    let (d_zero, xor_zero) = split zero_or in (d_zero, ap₂ (λ x xs. x ∷ xs) (same xor_zero) rest)

difference_self : (s : List ℕ) → AreBytes s → difference 0 s s ≡ 0
unfolding difference
difference_self [] h = refl
difference_self (a ∷ s) (h, hs) = rw (xor_self a h) (difference_self s hs)

module _ (c : Crypto) where
  open c use {hex_to_bytes}

  compare_bytes_iff :
      (s t : List ℕ)
      → AreBytes s
      → AreBytes t
      → (compare_bytes c (some s) (some t) ≡ some true) ↔ (s ≡ t)
  unfolding compare_bytes
  compare_bytes_iff s t hs ht = (
    (λ e. (difference-zero 0 s t (omega arith) hs ht (ground arith) (ground arith)).1),
    λ e. rw (← e) (ground (arith, difference_self s hs)),
  )

  -- Two digests that decode to bytes match exactly when their texts have one length and their bytes
  -- are the same.
  pub checksums_match_iff :
      (a b : Utf16) (s t : List ℕ)
      → hex_to_bytes a ≡ some s
      → hex_to_bytes b ≡ some t
      → AreBytes s
      → AreBytes t
      → (checksums_match c a b ≡ some true) ↔ ((length a ≡ length b) × (s ≡ t))
  unfolding checksums_match
  checksums_match_iff a b s t da db hs ht =
      let (to, from) = compare_bytes_iff s t hs ht in
      elim (Bool-cases (eqb (length a) (length b))) [
        | inl same ↦ rw (same, da, db) ((λ e. ((eqb_iff _ _).0 same, to e)), λ e. from e.1)
        | inr other ↦ rw other ((λ e. cc), λ e. cc ((eqb_iff (length a) (length b)).1 e.0))
      ]
