-- ===== src/Common/Texts.antt =====
-- Texts as lists of bytes, and the decimal digits of a number.
use Prim.Native.Char.{code}
use Prim.Native.String.{String}
use Prim.Native.Nat.{ℕ, zero, suc, ◌+◌, ◌/◌, ◌%◌, ◌^◌, ◌≤◌, ◌<◌}
use mathlib.Core.Path.{◌≡◌}
use mathlib.Core.List.{List, [], ◌∷◌, ◌++◌}
use native.Mathlib.Omega.{arith}
use native.Mathlib.Nat.{pow-suc}
use mathlib.Core.Bool.{Bool, true, false, ◌&&◌}
use pupa.Common.Tests.{ltb, ◌==◌, if◌then◌else◌}
use pupa.Common.Lists.{length}

-- A text is the list of the bytes of a string.
abbrev pub Text : Type 0
Text = List ℕ

-- The bytes of an ASCII text.
abbrev pub codes : String → Text
codes String.[] = []
codes (String.◌∷◌ c s) = code c ∷ codes s

-- `f 0` to `f (n - 1)`.
abbrev pub bytes_text : ℕ → (ℕ → ℕ) → Text
bytes_text zero f = []
bytes_text (suc n) f = f 0 ∷ bytes_text n (λ i. f (suc i))

-- `strcmp(a, b) == 0`
abbrev pub same_text : Text → Text → Bool
same_text [] [] = true
same_text [] (y ∷ ys) = false
same_text (x ∷ xs) [] = false
same_text (x ∷ xs) (y ∷ ys) = (x == y) && same_text xs ys

-- The digits of `n` in front of `rest`, with fuel for their number.
unfoldable pub digits : ℕ → ℕ → List ℕ → List ℕ
digits zero n rest = rest
digits (suc fuel) n rest =
    let more = digits fuel (n / 10) ((b'0' + n % 10) ∷ rest) in
    if ltb n 10 then (b'0' + n) ∷ rest else more

-- `%zu` and `%d` of a number below 2 ^ 64, which has 20 digits at most.
unfoldable pub decimal : ℕ → List ℕ
unfolding digits
decimal n = digits 20 n []

pub length-append {ℓ} : {A : Type ℓ} (xs ys : List A) → length (xs ++ ys) ≡ length xs + length ys
length-append [] ys = omega arith
length-append (x ∷ xs) ys = omega (arith, length-append xs ys)

length-digits :
    (fuel k n : ℕ) (rest : List ℕ)
    → n < 10 ^ suc k
    → length (digits fuel n rest) ≤ length rest + suc k
unfolding digits
length-digits zero k n rest h = omega arith
length-digits (suc fuel) zero n rest h = ground arith
length-digits (suc fuel) (suc k) n rest h =
    ground (arith, pow-suc 10 (suc k), length-digits fuel k (n / 10) ((b'0' + n % 10) ∷ rest))

-- A number below 10 ^ (k + 1) has `k + 1` digits at most.
pub length-decimal : (k n : ℕ) → n < 10 ^ suc k → length (decimal n) ≤ suc k
unfolding decimal
length-decimal k n h = omega (arith, length-digits 20 k n [] h)
