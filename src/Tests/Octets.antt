-- ===== src/Tests/Octets.antt =====
-- The shortest big-endian byte string of a number.
use schnorr.Common.{
  All, All-append, ℕ, zero, suc, ◌+◌, ◌/◌, ◌%◌, ◌^◌, ◌≤◌, ◌<◌, ◌≡◌, List, [], ◌∷◌, ◌++◌, true,
  false, ◌==◌, length, length-append, arith, inl, inr, Bool-cases,
}
use schnorr.Common.Bytes.{be, be-append}
use native.Mathlib.Nat.{pow-suc, pow-zero}

unfoldable pub octets_fuel : ℕ → ℕ → List ℕ
octets_fuel zero a = []
octets_fuel (suc f) a = elim (a == 0) [
  | true ↦ []
  | false ↦ octets_fuel f (a / 256) ++ ((a % 256) ∷ [])
]

unfoldable pub octets : ℕ → List ℕ
unfolding octets_fuel
octets a = octets_fuel a a

be-octets_fuel : (f a : ℕ) → a ≤ f → be (octets_fuel f a) ≡ a
unfolding octets_fuel be
be-octets_fuel zero a h = omega arith
be-octets_fuel (suc f) a h = elim (Bool-cases (a == 0)) [
  | inl e ↦ rw (e, octets_fuel) (ground arith)
  | inr e ↦
      let rest = be-octets_fuel f (a / 256) (ground arith) in
      rw (e, octets_fuel, be-append (octets_fuel f (a / 256)) ((a % 256) ∷ []), rest) (omega arith)
]

length-octets_fuel-le : (f a k : ℕ) → a < 256 ^ k → length (octets_fuel f a) ≤ k
unfolding octets_fuel
length-octets_fuel-le zero a k h = omega arith
length-octets_fuel-le (suc f) a zero h = elim (Bool-cases (a == 0)) [
  | inl e ↦ rw (e, octets_fuel) (omega arith)
  | inr e ↦ absurd (ground (arith, pow-zero 256))
]
length-octets_fuel-le (suc f) a (suc k) h = elim (Bool-cases (a == 0)) [
  | inl e ↦ rw (e, octets_fuel) (omega arith)
  | inr e ↦
      let rest = length-octets_fuel-le f (a / 256) k (omega (arith, pow-suc 256 k)) in
      rw (e, octets_fuel, length-append (octets_fuel f (a / 256)) ((a % 256) ∷ [])) (omega arith)
]

lt-octets_fuel : (f a : ℕ) → a ≤ f → a < 256 ^ length (octets_fuel f a)
unfolding octets_fuel
lt-octets_fuel zero a h = omega (arith, pow-zero 256)
lt-octets_fuel (suc f) a h = elim (Bool-cases (a == 0)) [
  | inl e ↦ rw (e, octets_fuel) (ground (arith, pow-zero 256))
  | inr e ↦
      let rest = lt-octets_fuel f (a / 256) (ground arith) in
      let longer : length (octets_fuel f (a / 256)) + 1 ≡ suc (length (octets_fuel f (a / 256))) =
        omega arith in
      rw
        (
          e,
          octets_fuel,
          length-append (octets_fuel f (a / 256)) ((a % 256) ∷ []),
          longer,
          pow-suc 256 (length (octets_fuel f (a / 256))),
        )
        (omega arith)
]

bytes-octets_fuel : (f a : ℕ) → All (λ b. b < 256) (octets_fuel f a)
unfolding octets_fuel
bytes-octets_fuel zero a = tt
bytes-octets_fuel (suc f) a = elim (Bool-cases (a == 0)) [
  | inl e ↦ rw (e, octets_fuel) tt
  | inr e ↦
      rw (e, octets_fuel)
        (All-append (λ b. b < 256) (octets_fuel f (a / 256)) ((a % 256) ∷ [])
          (bytes-octets_fuel f (a / 256)) (omega arith, tt))
]

pub bytes-octets : (a : ℕ) → All (λ b. b < 256) (octets a)
unfolding octets
bytes-octets a = bytes-octets_fuel a a

pub be-octets : (a : ℕ) → be (octets a) ≡ a
unfolding octets
be-octets a = be-octets_fuel a a (omega arith)

pub length-octets-le : (a k : ℕ) → a < 256 ^ k → length (octets a) ≤ k
unfolding octets
length-octets-le a k h = length-octets_fuel-le a a k h

pub lt-octets : (a : ℕ) → a < 256 ^ length (octets a)
unfolding octets
lt-octets a = lt-octets_fuel a a (omega arith)
