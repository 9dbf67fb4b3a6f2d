-- ===== src/Memory/Put.antt =====
-- Writing a block of bytes. memcpy and memmove copy the bytes that the source held before the call.
use pupa.Common.{ℕ, ◌+◌, ◌-◌, ◌≤◌, ◌<◌, ◌≡◌, ap, ◌⊎◌, ◌&&◌, arith, ltb, leb, if◌then◌else◌}

-- The byte at each address.
abbrev pub Mem : Type 0
Mem = ℕ → ℕ

-- `bytes 0` to `bytes (n - 1)` are written from the address `dst` on.
unfoldable pub put : Mem → ℕ → (ℕ → ℕ) → ℕ → Mem
put m dst bytes n x = if leb dst x && ltb x (dst + n) then bytes (x - dst) else m x

-- `memcpy(dst, src, n)`, or `memmove` where the blocks overlap.
unfoldable pub copy : Mem → ℕ → ℕ → ℕ → Mem
unfolding put
copy m dst src n = put m dst (λ i. m (src + i)) n

module _ (m : Mem) (dst : ℕ) where
  pub put_inside : (bytes : ℕ → ℕ) (n x i : ℕ) → x ≡ dst + i → i < n → put m dst bytes n x ≡ bytes i
  unfolding put
  put_inside bytes n x i e h = let d : x - dst ≡ i = omega arith in ground (arith, ap bytes d)

  pub put_outside :
      (bytes : ℕ → ℕ) (n x : ℕ) → (x < dst) ⊎ (dst + n ≤ x) → put m dst bytes n x ≡ m x
  unfolding put
  put_outside bytes n x h = ground arith

module _ (m : Mem) (dst src n : ℕ) where
  pub copy_inside : (x i : ℕ) → x ≡ dst + i → i < n → copy m dst src n x ≡ m (src + i)
  unfolding copy
  copy_inside x i e h = put_inside m dst (λ j. m (src + j)) n x i e h

  pub copy_outside : (x : ℕ) → (x < dst) ⊎ (dst + n ≤ x) → copy m dst src n x ≡ m x
  unfolding copy
  copy_outside x h = put_outside m dst (λ j. m (src + j)) n x h
