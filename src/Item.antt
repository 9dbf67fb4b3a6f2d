-- ===== src/Item.antt =====
-- The records that pupa_store.c keeps in the item areas, and the order of the items:
-- `pupa_store_item_t`, `pupa_store_item_val_t`, `_pupa_store_item_compare`.
pub mod Order
pub mod Block
use pupa.Common.{ℕ, zero, suc, ◌+◌, ◌-◌, ◌*◌, ◌%◌, ◌^◌, Ordering, compare, ltb, ◌==◌, if◌then◌else◌}
use pupa.Memory.{Mem, load, store}

-- `pupa_str_t` as the library reads it: the length and the caller's bytes from `data` on. The
-- library reads `data[len]` too, when it looks a key up.
pub record Str : Type 0 where
  pub len : ℕ
  pub bytes : ℕ → ℕ

-- A `pupa_str_t` that the library hands out: a length, and an offset into the mapping.
pub record View : Type 0 where
  pub len : ℕ
  pub offset : ℕ

-- The fields of the `pupa_store_item_t` at address `a`.
unfoldable pub key_offset : Mem → ℕ → ℕ
key_offset m a = load 8 m a

unfoldable pub key_len : Mem → ℕ → ℕ
key_len m a = load 4 m (a + 8)

unfoldable pub val_cnt : Mem → ℕ → ℕ
val_cnt m a = load 4 m (a + 12)

-- The fields of the `pupa_store_item_val_t` at address `a`.
unfoldable pub value_offset : Mem → ℕ → ℕ
value_offset m a = load 8 m a

unfoldable pub value_len : Mem → ℕ → ℕ
value_len m a = load 4 m (a + 8)

unfoldable pub set_key_offset : Mem → ℕ → ℕ → Mem
set_key_offset m a v = store 8 m a v

unfoldable pub set_key_len : Mem → ℕ → ℕ → Mem
set_key_len m a v = store 4 m (a + 8) v

unfoldable pub set_val_cnt : Mem → ℕ → ℕ → Mem
set_val_cnt m a v = store 4 m (a + 12) v

unfoldable pub set_value_offset : Mem → ℕ → ℕ → Mem
set_value_offset m a v = store 8 m a v

unfoldable pub set_value_len : Mem → ℕ → ℕ → Mem
set_value_len m a v = store 4 m (a + 8) v

-- `memcmp(p, q, n)`, by its sign
unfoldable pub memcmp : ℕ → (ℕ → ℕ) → (ℕ → ℕ) → Ordering
memcmp zero p q = Ordering.eq
memcmp (suc n) p q =
    let rest = memcmp n (λ i. p (suc i)) (λ i. q (suc i)) in
    elim (compare (p 0) (q 0)) [
      | Ordering.lt ↦ Ordering.lt
      | Ordering.gt ↦ Ordering.gt
      | Ordering.eq ↦ rest
    ]

-- The sign of the `int` that the difference of two `uint32_t` is stored into.
unfoldable pub diff_sign : ℕ → ℕ → Ordering
diff_sign a b =
    let d = (a + 2 ^ 32 - b) % 2 ^ 32 in
    if d == 0 then Ordering.eq else if ltb d (2 ^ 31) then Ordering.gt else Ordering.lt

-- `_pupa_store_item_compare`: a key of length `len` (its '\0' counted) whose bytes are `bytes`
-- against the item at `p2`. A lookup passes the caller's key (`key_offset != 0`); the sort passes
-- the key of the item that it places (`key_offset == 0`).
unfoldable pub compare_key : Mem → ℕ → (ℕ → ℕ) → ℕ → Ordering
unfolding diff_sign memcmp key_len key_offset
compare_key m len bytes p2 = elim (diff_sign len (key_len m p2)) [
  | Ordering.lt ↦ Ordering.lt
  | Ordering.gt ↦ Ordering.gt
  | Ordering.eq ↦ memcmp len bytes (λ i. m (key_offset m p2 + i))
]

-- The key bytes of the item at `a`.
abbrev pub key_bytes : Mem → ℕ → ℕ → ℕ
key_bytes m a i = m (key_offset m a + i)

-- `pupa_store_item_compare`, as `bsearch` calls it: the caller's key against the item at `p2`.
unfoldable pub pupa_store_item_compare : Mem → Str → ℕ → Ordering
unfolding compare_key
pupa_store_item_compare m key p2 = compare_key m (key.len + 1) key.bytes p2

-- `_pupa_store_item_compare`, as the sort calls it: the item at `p1` against the item at `p2`.
unfoldable pub item_compare : Mem → ℕ → ℕ → Ordering
unfolding compare_key key_len key_offset
item_compare m p1 p2 = compare_key m (key_len m p1) (key_bytes m p1) p2
