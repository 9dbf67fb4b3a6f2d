-- ===== src/Store.antt =====
-- When the bytes of the mapping are a store: the areas do not overlap, the items are in order, and
-- each points into the used part of the key and value areas.
pub mod Find
pub mod Get
pub mod Keep
pub mod Insert
pub mod Snapshot
pub mod Added
pub mod Replaced
pub mod ReplacedTable
pub mod SetOld
pub mod Visible
pub mod Moments
pub mod Adding
pub mod Window
pub mod Del
pub mod Finish
pub mod SetNew
pub mod Reading
pub mod SetGet
pub mod DelGet
pub mod Stale
pub mod Lost
pub mod Full
use pupa.Common.{ℕ, ◌+◌, ◌*◌, ◌^◌, ◌≤◌, ◌<◌, ◌≡◌, ◌⊎◌, Ordering, pos}
use pupa.Memory.{Mem}
use pupa.Layout.{Header, offset, snapshot_offset, item_len}
use pupa.Item.{Str, key_len, key_offset, val_cnt, value_offset, value_len}
use pupa.Item.Order.{order, item_key, SameStr}
use pupa.Context.{Ctx}
use pupa.Read.{version_address}

-- The current areas of the keys and the values.
abbrev pub keys : Header → ℕ
keys h = offset h.key_section

abbrev pub values : Header → ℕ
values h = offset h.value_section

-- The address of item `i` in the item area at `base`.
abbrev pub item_at : Header → ℕ → ℕ → ℕ
item_at h base i = base + i * item_len h

-- The address of the record of version `v` of the item at `a`; version 1 is the newest.
abbrev pub version_at : Header → ℕ → ℕ → ℕ
version_at h a v = version_address h.max_ver_num a (pos v)

-- Version `v` of the item at `a`.
abbrev pub item_value : Header → Mem → ℕ → ℕ → Str
item_value h m a v = record {
  len = value_len m (version_at h a v);
  bytes = λ i. m (value_offset m (version_at h a v) + i);
}

-- One item: its key and values lie in the used parts of their areas.
pub record IsItem (h : Header) (m : Mem) (a : ℕ) : Type 0 where
  pub key_short : key_len m a < 2 ^ 31
  pub key_some : 0 < key_len m a
  pub key_from : keys h ≤ key_offset m a
  pub key_to : key_offset m a + key_len m a ≤ keys h + h.key_section.used
  pub cnt_some : 0 < val_cnt m a
  pub cnt_max : val_cnt m a ≤ h.max_ver_num
  pub value_from : (v : ℕ) → 0 < v → v ≤ val_cnt m a → values h ≤ value_offset m (version_at h a v)
  pub value_to :
      (v : ℕ)
      → 0 < v
      → v ≤ val_cnt m a
      → value_offset m (version_at h a v) + value_len m (version_at h a v)
        ≤ values h + h.value_section.used

-- `n` items in the area at `base`, in the order of their keys, no key twice.
pub record IsTable (h : Header) (m : Mem) (base n : ℕ) : Type 0 where
  pub items : (i : ℕ) → i < n → IsItem h m (item_at h base i)
  pub ordered :
      (i j : ℕ)
      → i < j
      → j < n
      → order (item_key m (item_at h base i)) (item_key m (item_at h base j)) ≡ Ordering.lt

-- `n` items fit into each item area in front of the keys, and the areas lie apart.
pub record HasRoom (h : Header) (n : ℕ) : Type 0 where
  pub versions : 0 < h.max_ver_num
  pub versions_small : h.max_ver_num < 2 ^ 31
  pub apart :
      (item_at h (offset h.item_section) n ≤ snapshot_offset h.item_section)
      ⊎ (item_at h (snapshot_offset h.item_section) n ≤ offset h.item_section)
  pub below_keys : item_at h (offset h.item_section) n ≤ keys h
  pub snapshot_below_keys : item_at h (snapshot_offset h.item_section) n ≤ keys h
  pub keys_below_values : keys h + h.key_section.size ≤ values h
  pub keys_used : h.key_section.used ≤ h.key_section.size
  pub values_used : h.value_section.used ≤ h.value_section.size
  pub small : values h + h.value_section.size < 2 ^ 62

-- The store that the readers see.
pub record IsStore (ctx : Ctx) : Type 0 where
  pub room : HasRoom ctx.store_hdr ctx.store_hdr.item_section.used
  pub table :
      IsTable ctx.store_hdr ctx.mem
        (offset ctx.store_hdr.item_section)
        ctx.store_hdr.item_section.used

-- `ctx->store_items` points at the current item area.
abbrev pub IsFresh : Ctx → Type 0
IsFresh ctx = ctx.store_items ≡ offset ctx.store_hdr.item_section
