-- ===== src/Context.antt =====
-- `pupa_ctx_t` and the return codes of src/pupa_config.h, and `bsearch` of the C library.
use pupa.Common.{
  ℕ, zero, suc, ◌+◌, ◌*◌, ◌/◌, Ordering, Bool, true, false, Option, none, some, ltb, if◌then◌else◌,
}
use pupa.Memory.{Mem}
use pupa.Layout.{Header}

-- PUPA_OK, PUPA_ERROR, PUPA_OVERFLOW, PUPA_NOT_FOUND, PUPA_NOT_FOUND_VALUE and
-- PUPA_EXCEED_MAXIMUM_NUM
pub data Status : Type 0 where
  ok error overflow not_found not_found_value exceed_maximum_num : Status

-- `ret != PUPA_OK`
abbrev pub failed : Status → Bool
failed ok = false
failed _ = true

-- The part of `pupa_ctx_t` that src/pupa_store.c works on: the header at the start of the mapping,
-- the bytes behind it, and the two item pointers as offsets from `store_hdr`.
pub record Ctx : Type 0 where
  pub store_hdr : Header
  pub mem : Mem
  pub store_items : ℕ
  pub store_items_snapshot : ℕ

-- How the calls of the system turn out during one write: `malloc` in the sort, and `msync`.
pub record Env : Type 0 where
  pub allocated : Bool
  pub synced : Bool

-- `bsearch(key, base, nmemb, size, cmp)` of the C library over the elements from `low` to
-- `high - 1`, with `cmp p` for `cmp(key, p)`. The fuel `nmemb` is enough.
unfoldable pub bsearch : (ℕ → Ordering) → (base size : ℕ) → (fuel low high : ℕ) → Option ℕ
bsearch cmp base size zero low high = none
bsearch cmp base size (suc fuel) low high =
    let mid = (low + high) / 2 in
    let right = bsearch cmp base size fuel (mid + 1) high in
    let left = bsearch cmp base size fuel low mid in
    let at_mid : Option ℕ = elim (cmp (base + mid * size)) [
      | Ordering.eq ↦ some (base + mid * size)
      | Ordering.gt ↦ right
      | Ordering.lt ↦ left
    ] in
    if ltb low high then at_mid else none
