-- ===== src/Store/Added.antt =====
-- `pupa_store_item_add` on a snapshot, where the key and the value fit without a compaction.
use pupa.Common.{ℕ, ◌+◌, ◌^◌, ◌≤◌, ◌<◌, ◌≡◌, ◌≢◌, ◌∙◌, ap, sym, refl, ◌⊎◌, arith, step_le}
use pupa.Memory.{load-ext}
use pupa.Layout.{Header, snapshot_offset, free_offset, item_len}
use pupa.Layout.Switch.{offset-used, free_offset_lem}
use pupa.Item.{Str, key_len, key_offset, val_cnt, value_offset, value_len}
use pupa.Item.Block.{SameBlock}
use pupa.Item.Order.{item_key, SameStr}
use pupa.Context.{ok, Ctx}
use pupa.Read.{version_address}
use pupa.Write.{
  key_room, value_room, write_key, add_value, link_value, continue_add, finish_add,
  pupa_store_item_add, last_value,
}
use pupa.Write.Strings.{terminated}
use pupa.Write.Add.{
  write_key_outside, write_key_bytes, write_key-key_len, write_key-key_offset, write_key-used,
  add_value_outside, add_value_bytes, add_value-val_cnt, add_value-value_len,
  add_value-value_offset, add_value-used,
}
use pupa.Store.{IsItem, IsTable, HasRoom, keys, values, item_at, version_at, item_value}
use pupa.Store.Keep.{Grows, SameStrings, SameItem, kept-IsTable, kept_items}

-- A key and a value go into the free parts of the current areas.
pub record Fits (h : Header) (key value : Str) : Type 0 where
  pub item_free : h.item_section.used ≢ h.item_section.size
  pub key_free : h.key_section.used + (key.len + 1) ≤ h.key_section.size
  pub value_free : h.value_section.used + (value.len + 1) ≤ h.value_section.size
  pub value_short : value.len + 1 < 2 ^ 31

-- `ctx` is the context that holds the snapshot.
module _ (ctx : Ctx) (key value : Str) (short : key.len + 1 < 2 ^ 31)
    (fits : Fits ctx.store_hdr key value)
    (g : HasRoom ctx.store_hdr (ctx.store_hdr.item_section.used + 1)) where
  abbrev pub hdr : Header
  hdr = ctx.store_hdr

  abbrev pub n : ℕ
  n = hdr.item_section.used

  abbrev pub base : ℕ
  base = snapshot_offset hdr.item_section

  abbrev pub item : ℕ
  item = item_at hdr base n

  abbrev pub with_key : Ctx
  with_key = write_key ctx item (free_offset hdr.key_section) (keys hdr) key

  abbrev pub added : Ctx
  added = add_value with_key item (free_offset hdr.value_section) (values hdr) value

  -- The addition succeeds, and this is what it leaves.
  pub item_add_lem : pupa_store_item_add ctx item key value ≡ (ok, added)
  unfolding pupa_store_item_add continue_add finish_add key_room value_room write_key
  item_add_lem = ground (arith, fits.item_free, fits.key_free, fits.value_free)

  key_end : free_offset hdr.key_section ≡ keys hdr + hdr.key_section.used
  key_end = free_offset_lem hdr.key_section

  value_end : free_offset hdr.value_section ≡ values hdr + hdr.value_section.used
  value_end = free_offset_lem hdr.value_section

  -- The item area ends in front of the keys.
  item_fits : item + item_len hdr ≤ keys hdr
  item_fits = omega (arith, g.snapshot_below_keys, step_le n (n + 1) (item_len hdr) (omega arith))

  key_apart : item + 16 ≤ free_offset hdr.key_section
  unfolding item_len
  key_apart = omega (arith, item_fits, key_end)

  key_small : keys hdr + hdr.key_section.used < 2 ^ 63
  key_small = omega (arith, g.keys_below_values, g.keys_used, g.small)

  last_fits : last_value with_key item + 16 ≤ item + item_len hdr
  unfolding item_len write_key
  last_fits = omega (arith, g.versions)

  last_from : item + 16 ≤ last_value with_key item
  last_from = omega arith

  value_apart : last_value with_key item + 16 ≤ free_offset hdr.value_section
  value_apart = omega (arith, last_fits, item_fits, value_end, g.keys_below_values)

  value_small : values hdr + with_key.store_hdr.value_section.used < 2 ^ 63
  unfolding write_key
  value_small = omega (arith, g.values_used, g.small)

  -- What the addition does not touch.
  pub added_outside :
      (x : ℕ)
      → (x < item) ⊎ (item + item_len hdr ≤ x)
      → (x < keys hdr + hdr.key_section.used)
        ⊎ (keys hdr + hdr.key_section.used + (key.len + 1) ≤ x)
      → (x < values hdr + hdr.value_section.used)
        ⊎ (values hdr + hdr.value_section.used + (value.len + 1) ≤ x)
      → added.mem x ≡ ctx.mem x
  unfolding item_len
  added_outside x h k l =
      add_value_outside with_key item (free_offset hdr.value_section) (values hdr) value value_apart
        fits.value_short value_small x (omega arith) (omega (arith, last_fits))
        (omega (arith, value_end))
      ∙ write_key_outside ctx item (free_offset hdr.key_section) (keys hdr) key key_apart short
          key_small x (omega arith) (omega (arith, key_end))

  -- The value part leaves the first half of the item and the key alone.
  key_part :
      (x : ℕ)
      → (x < item + 12) ⊎ (item + item_len hdr ≤ x)
      → x < values hdr
      → added.mem x ≡ with_key.mem x
  unfolding item_len
  key_part x h l =
      add_value_outside with_key item (free_offset hdr.value_section) (values hdr) value value_apart
        fits.value_short value_small x (omega arith) (omega (arith, last_from, last_fits))
        (omega (arith, value_end))

  pub added-Grows : Grows hdr added.store_hdr
  unfolding add_value link_value write_key
  added-Grows = record {
    same_max = refl;
    same_keys = sym (offset-used hdr.key_section _);
    same_values = sym (offset-used hdr.value_section _);
    more_keys = omega arith;
    more_values = omega arith;
  }

  pub added-key_used : added.store_hdr.key_section.used ≡ hdr.key_section.used + (key.len + 1)
  unfolding add_value link_value
  added-key_used =
      write_key-used ctx item (free_offset hdr.key_section) (keys hdr) key key_apart short key_small

  pub added-value_used :
      added.store_hdr.value_section.used ≡ hdr.value_section.used + (value.len + 1)
  unfolding write_key
  added-value_used =
      add_value-used with_key item (free_offset hdr.value_section) (values hdr) value value_apart
        fits.value_short value_small

  below_values : item + item_len hdr ≤ values hdr
  below_values = omega (arith, item_fits, g.keys_below_values)

  added-key_len : key_len added.mem item ≡ key.len + 1
  unfolding key_len item_len
  added-key_len =
      load-ext 4 added.mem with_key.mem (item + 8) (item + 8)
        (λ i l. key_part (item + 8 + i) (omega arith) (omega (arith, below_values)))
      ∙ write_key-key_len ctx item (free_offset hdr.key_section) (keys hdr) key key_apart short
          key_small

  added-key_offset : key_offset added.mem item ≡ keys hdr + hdr.key_section.used
  unfolding key_offset item_len
  added-key_offset =
      load-ext 8 added.mem with_key.mem item item
        (λ i l. key_part (item + i) (omega arith) (omega (arith, below_values)))
      ∙ write_key-key_offset ctx item (free_offset hdr.key_section) (keys hdr) key key_apart short
          key_small

  added-val_cnt : val_cnt added.mem item ≡ 1
  added-val_cnt =
      add_value-val_cnt with_key item (free_offset hdr.value_section) (values hdr) value value_apart
        fits.value_short value_small

  -- The new item has the key, with its '\0' ...
  pub added_key : SameStr (item_key added.mem item) (terminated key)
  added_key = record {
    same_len = added-key_len;
    same_bytes = λ i l.
        let e : key_offset added.mem item + i ≡ keys hdr + hdr.key_section.used + i =
          omega (arith, added-key_offset) in
        ap added.mem e
        ∙ key_part (keys hdr + hdr.key_section.used + i) (omega (arith, item_fits))
            (omega (arith, added-key_len, fits.key_free, g.keys_below_values))
        ∙ write_key_bytes ctx item (free_offset hdr.key_section) (keys hdr) key key_apart short
            key_small (keys hdr + hdr.key_section.used + i) i (omega (arith, key_end))
            (omega (arith, added-key_len));
  }

  added-value_len : value_len added.mem (version_at added.store_hdr item 1) ≡ value.len + 1
  unfolding version_address add_value link_value
  added-value_len =
      add_value-value_len with_key item (free_offset hdr.value_section) (values hdr) value
        value_apart fits.value_short value_small

  added-value_offset :
      value_offset added.mem (version_at added.store_hdr item 1)
      ≡ values hdr + hdr.value_section.used
  unfolding version_address add_value link_value write_key
  added-value_offset =
      add_value-value_offset with_key item (free_offset hdr.value_section) (values hdr) value
        value_apart fits.value_short value_small

  -- ... and the value as its only version.
  pub added_value :
      (val_cnt added.mem item ≡ 1)
      × SameStr (item_value added.store_hdr added.mem item 1) (terminated value)
  added_value = (
    added-val_cnt,
    record {
      same_len = added-value_len;
      same_bytes = λ i l.
          let e : value_offset added.mem (version_at added.store_hdr item 1) + i
              ≡ values hdr + hdr.value_section.used + i =
            omega (arith, added-value_offset) in
          ap added.mem e
          ∙ add_value_bytes with_key item (free_offset hdr.value_section) (values hdr) value
              value_apart fits.value_short value_small (values hdr + hdr.value_section.used + i) i
              (omega (arith, value_end)) (omega (arith, added-value_len));
    },
  )

  one_version : (v : ℕ) → 0 < v → v ≤ val_cnt added.mem item → v ≡ 1
  one_version v p q = omega (arith, added-val_cnt)

  pub added-IsItem : IsItem added.store_hdr added.mem item
  added-IsItem = record {
    key_short = omega (arith, added-key_len);
    key_some = omega (arith, added-key_len);
    key_from = omega (arith, added-key_offset, added-Grows.same_keys);
    key_to = omega (arith, added-key_offset, added-key_len, added-Grows.same_keys, added-key_used);
    cnt_some = omega (arith, added-val_cnt);
    cnt_max = omega (arith, added-val_cnt, g.versions, added-Grows.same_max);
    value_from = λ v p q.
        rw (one_version v p q) (omega (arith, added-value_offset, added-Grows.same_values));
    value_to = λ v p q. rw (one_version v p q) (
        omega
          (arith, added-value_offset, added-value_len, added-Grows.same_values, added-value_used));
  }

  pub added_strings : SameStrings hdr ctx.mem added.mem
  added_strings = record {
    same_keys = λ x p q. sym (
        added_outside x (omega (arith, item_fits)) (omega arith)
          (omega (arith, g.keys_used, g.keys_below_values)));
    same_values = λ x p q. sym (
        added_outside x (omega (arith, item_fits, g.keys_below_values))
          (omega (arith, fits.key_free, g.keys_below_values)) (omega arith));
  }

  added_block :
      (i : ℕ)
      → i < n
      → SameBlock
          (item_len hdr)
          ctx.mem
          (item_at hdr base i)
          added.mem
          (item_at added.store_hdr base i)
  unfolding item_len add_value link_value write_key
  added_block i l x y j ex ey h =
      let e : x ≡ y = omega arith in
      ap ctx.mem e
      ∙ sym (
          added_outside y (omega (arith, step_le i n (item_len hdr) l))
            (omega (arith, item_fits, step_le i n (item_len hdr) l))
            (omega (arith, item_fits, g.keys_below_values, step_le i n (item_len hdr) l)))

  -- The other items of the snapshot stay.
  pub added_items :
      IsTable hdr ctx.mem base n
      → (i : ℕ) → i < n
      → SameItem hdr ctx.mem
          (item_at hdr base i)
          added.store_hdr
          added.mem
          (item_at added.store_hdr base i)
  added_items t =
      kept_items hdr added.store_hdr added-Grows ctx.mem added.mem added_strings base base n
        added_block t

  pub added-IsTable : IsTable hdr ctx.mem base n → IsTable added.store_hdr added.mem base n
  added-IsTable t =
      kept-IsTable hdr added.store_hdr added-Grows ctx.mem added.mem added_strings base base n
        added_block t
