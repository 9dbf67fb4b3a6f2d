-- ===== src/Item/Block.antt =====
-- An item is a block of `item_len` bytes: what two equal blocks have in common.
use pupa.Common.{ℕ, ◌+◌, ◌≤◌, ◌<◌, ◌≡◌, arith}
use pupa.Memory.{Mem, load, load-ext}
use pupa.Item.{key_offset, key_len, val_cnt, value_offset, value_len}

-- The `n` bytes from `a` on in `m` are those from `b` on in `m'`.
abbrev pub SameBlock : ℕ → Mem → ℕ → Mem → ℕ → Type 0
SameBlock n m a m' b = (x y i : ℕ) → x ≡ a + i → y ≡ b + i → i < n → m x ≡ m' y

module _ (n : ℕ) (m : Mem) (a : ℕ) (m' : Mem) (b : ℕ) (same : SameBlock n m a m' b) where
  load-block : (k d x y : ℕ) → x ≡ a + d → y ≡ b + d → d + k ≤ n → load k m x ≡ load k m' y
  load-block k d x y ex ey h =
      load-ext k m m' x y
        (λ i l. same (x + i) (y + i) (d + i) (omega arith) (omega arith) (omega arith))

  pub key_offset-block : 16 ≤ n → key_offset m a ≡ key_offset m' b
  unfolding key_offset
  key_offset-block h = load-block 8 0 a b (omega arith) (omega arith) (omega arith)

  pub key_len-block : 16 ≤ n → key_len m a ≡ key_len m' b
  unfolding key_len
  key_len-block h = load-block 4 8 (a + 8) (b + 8) (omega arith) (omega arith) (omega arith)

  pub val_cnt-block : 16 ≤ n → val_cnt m a ≡ val_cnt m' b
  unfolding val_cnt
  val_cnt-block h = load-block 4 12 (a + 12) (b + 12) (omega arith) (omega arith) (omega arith)

  pub value_offset-block :
      (d x y : ℕ) → x ≡ a + d → y ≡ b + d → d + 16 ≤ n → value_offset m x ≡ value_offset m' y
  unfolding value_offset
  value_offset-block d x y ex ey h = load-block 8 d x y ex ey (omega arith)

  pub value_len-block :
      (d x y : ℕ) → x ≡ a + d → y ≡ b + d → d + 16 ≤ n → value_len m x ≡ value_len m' y
  unfolding value_len
  value_len-block d x y ex ey h =
      load-block 4 (d + 8) (x + 8) (y + 8) (omega arith) (omega arith) (omega arith)
