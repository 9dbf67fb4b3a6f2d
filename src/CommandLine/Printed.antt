-- ===== src/CommandLine/Printed.antt =====
-- What is printed of a string.
use pupa.Common.{
  ℕ, zero, suc, ◌<◌, ◌≡◌, ◌≢◌, refl, [], ◌∷◌, arith, ◌==◌, if◌then◌else◌, length, Bool-cases, inl,
  inr,
}
use pupa.Common.Texts.{Text, bytes_text}
use pupa.CommandLine.{byte_at, printed}

-- A text in front of its first '\0'.
abbrev pub until_zero : Text → Text
until_zero [] = []
until_zero (x ∷ xs) = let rest = until_zero xs in if x == 0 then [] else x ∷ rest

-- No '\0' in it.
abbrev pub NoZero : Text → Type 0
NoZero t = (i : ℕ) → i < length t → byte_at t i ≢ 0

pub printed-until_zero : (n : ℕ) (f : ℕ → ℕ) → printed n f ≡ until_zero (bytes_text n f)
unfolding printed
printed-until_zero zero f = refl
printed-until_zero (suc n) f = rw (printed-until_zero n (λ i. f (suc i))) refl

-- A string without a '\0' is printed whole.
pub printed_whole : (t : Text) → NoZero t → printed (length t) (byte_at t) ≡ t
unfolding printed
printed_whole [] z = refl
printed_whole (x ∷ xs) z =
    let rest = printed_whole xs (λ i l. z (suc i) (omega arith)) in
    elim (Bool-cases (x == 0)) [
      | inl e ↦ absurd (z 0 (omega arith) (ground arith))
      | inr e ↦ rw (e, rest) refl
    ]

-- The '\0' behind it is not printed.
pub printed_ended : (t : Text) → NoZero t → printed (suc (length t)) (byte_at t) ≡ t
unfolding printed
printed_ended [] z = refl
printed_ended (x ∷ xs) z =
    let rest = printed_ended xs (λ i l. z (suc i) (omega arith)) in
    elim (Bool-cases (x == 0)) [
      | inl e ↦ absurd (z 0 (omega arith) (ground arith))
      | inr e ↦ rw (e, rest) refl
    ]
