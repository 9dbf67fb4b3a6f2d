-- ===== src/Store/Replaced.antt =====
-- `pupa_store_item_replace` on an item of a snapshot, where the value fits without a compaction.
use native.Mathlib.Decide.{ℕ_discrete}
use pupa.Common.{ℕ, ◌+◌, ◌-◌, ◌*◌, ◌^◌, ◌≤◌, ◌<◌, ◌≡◌, ◌∙◌, ap, sym, refl, ◌⊎◌, inl, arith}
use pupa.Memory.{Mem, put_outside, byte, store, load, load-ext, load-store_self, load-put_apart}
use pupa.Layout.{Header, free_offset, item_len}
use pupa.Layout.Switch.{offset-used, free_offset_lem}
use pupa.Item.{
  Str, key_len, key_offset, val_cnt, value_offset, value_len, set_value_offset, set_value_len,
}
use pupa.Item.Block.{SameBlock, val_cnt-block, value_offset-block, value_len-block}
use pupa.Item.Order.{item_key, SameStr}
use pupa.Context.{ok, Ctx}
use pupa.Read.{version_address}
use pupa.Write.{
  write_str, shift_values, link_value, replace_value, finish_replace, value_room,
  pupa_store_item_replace,
}
use pupa.Write.Strings.{terminated, write_str_inside, write_str_outside}
use pupa.Write.Shift.{IsShifted, next_cnt, shift_values-IsShifted}
use pupa.Store.{IsItem, HasRoom, keys, values, version_at, item_value}
use pupa.Store.Keep.{Grows, SameStrings}

-- A value goes into the free part of the current value area.
pub record FitsValue (h : Header) (value : Str) : Type 0 where
  pub value_free : h.value_section.used + (value.len + 1) ≤ h.value_section.size
  pub value_short : value.len + 1 < 2 ^ 31

module _ (ctx : Ctx) (item : ℕ) (value : Str) (fits : FitsValue ctx.store_hdr value)
    (below : item + item_len ctx.store_hdr ≤ keys ctx.store_hdr) (n : ℕ)
    (g : HasRoom ctx.store_hdr n) (valid : IsItem ctx.store_hdr ctx.mem item) where
  abbrev pub hdr : Header
  hdr = ctx.store_hdr

  abbrev start : ℕ
  start = values hdr + hdr.value_section.used

  abbrev p : ℕ
  p = free_offset hdr.value_section

  abbrev written : Mem
  written = write_str ctx.mem p value

  abbrev shifted_mem : Mem
  shifted_mem = (shift_values written hdr.max_ver_num item).0

  abbrev val : ℕ
  val = (shift_values written hdr.max_ver_num item).1

  abbrev pointed : Mem
  pointed = set_value_offset shifted_mem val start

  abbrev pub replaced : Ctx
  replaced = replace_value ctx item p (values hdr) value

  -- The replacement succeeds, and this is what it leaves.
  pub item_replace_lem : pupa_store_item_replace ctx item value ≡ (ok, replaced)
  unfolding pupa_store_item_replace finish_replace value_room
  item_replace_lem = ground (arith, fits.value_free)

  value_end : p ≡ start
  value_end = free_offset_lem hdr.value_section

  item_below : item + item_len hdr ≤ p
  item_below = omega (arith, below, g.keys_below_values, value_end)

  pub written_outside :
      (x : ℕ) → (x < start) ⊎ (start + (value.len + 1) ≤ x) → written x ≡ ctx.mem x
  written_outside x h = write_str_outside ctx.mem p value x (omega (arith, value_end))

  head_below : item + 16 ≤ start
  unfolding item_len
  head_below = omega (arith, item_below, value_end)

  written_cnt : val_cnt written item ≡ val_cnt ctx.mem item
  written_cnt =
      val_cnt-block 16 written item ctx.mem item
        (λ x y j ex ey h. written_outside x (omega (arith, head_below)) ∙ ap ctx.mem (omega arith))
        (omega arith)

  pub shift : IsShifted written hdr.max_ver_num item shifted_mem val
  shift =
      shift_values-IsShifted written hdr.max_ver_num item g.versions g.versions_small
        (omega (arith, written_cnt, valid.cnt_some)) (omega (arith, written_cnt, valid.cnt_max))

  pub val_at : val ≡ item + 16 + (hdr.max_ver_num - 1) * 16
  val_at = shift.newest

  linked_outside : (x : ℕ) → (x < val) ⊎ (val + 12 ≤ x) → replaced.mem x ≡ shifted_mem x
  unfolding replace_value link_value set_value_len set_value_offset store
  linked_outside x h =
      put_outside pointed (val + 8) (byte (value.len + 1)) 4 x (omega arith)
      ∙ put_outside shifted_mem val (byte start) 8 x (omega arith)

  -- What the replacement does not touch.
  pub replaced_outside :
      (x : ℕ)
      → (x < item + 12) ⊎ (item + item_len hdr ≤ x)
      → (x < start) ⊎ (start + (value.len + 1) ≤ x)
      → replaced.mem x ≡ ctx.mem x
  unfolding item_len
  replaced_outside x h k =
      linked_outside x (omega (arith, val_at, g.versions))
      ∙ shift.outside x (omega arith)
      ∙ written_outside x k

  pub replaced-val_cnt : val_cnt replaced.mem item ≡ next_cnt hdr.max_ver_num (val_cnt ctx.mem item)
  replaced-val_cnt =
      val_cnt-block 16 replaced.mem item shifted_mem item
        (λ x y j ex ey h. linked_outside x (omega (arith, val_at)) ∙ ap shifted_mem (omega arith))
        (omega arith)
      ∙ shift.counted
      ∙ ap (next_cnt hdr.max_ver_num) written_cnt

  -- A version `v` becomes the version `v + 1`.
  older_block :
      (v : ℕ)
      → 0 < v
      → v + 1 ≤ next_cnt hdr.max_ver_num (val_cnt ctx.mem item)
      → v + 1 ≤ hdr.max_ver_num
      → SameBlock 16 ctx.mem
          (item + 16 + (hdr.max_ver_num - v) * 16)
          replaced.mem
          (item + 16 + (hdr.max_ver_num - (v + 1)) * 16)
  unfolding item_len
  older_block v p q r x y j ex ey h =
      sym (written_outside x (omega (arith, item_below, value_end)))
      ∙ shift.older v p (rw written_cnt q) x y j ex ey h
      ∙ sym (linked_outside y (omega (arith, val_at)))

  replaced-value_len : value_len replaced.mem val ≡ value.len + 1
  unfolding replace_value link_value value_len set_value_len
  replaced-value_len =
      load-store_self 4 pointed (val + 8) (value.len + 1) (omega (arith, fits.value_short))

  replaced-value_offset : value_offset replaced.mem val ≡ start
  unfolding replace_value link_value value_offset set_value_len set_value_offset load store
  replaced-value_offset =
      load-put_apart 8 pointed (val + 8) (byte (value.len + 1)) 4 val (omega arith)
      ∙ load-store_self 8 shifted_mem val start (omega (arith, g.small, g.values_used))

  pub replaced_used :
      replaced.store_hdr.value_section.used ≡ hdr.value_section.used + (value.len + 1)
  unfolding replace_value link_value
  replaced_used = omega (arith, replaced-value_len)

  replaced_bytes :
      (x i : ℕ) → x ≡ start + i → i < value.len + 1 → replaced.mem x ≡ (terminated value).bytes i
  unfolding item_len
  replaced_bytes x i e h =
      linked_outside x (omega (arith, val_at, item_below, value_end, g.versions))
      ∙ shift.outside x (omega (arith, item_below, value_end))
      ∙ write_str_inside ctx.mem p value x i (omega (arith, value_end)) h

  pub replaced-Grows : Grows hdr replaced.store_hdr
  unfolding replace_value link_value
  replaced-Grows = record {
    same_max = refl;
    same_keys = refl;
    same_values = sym (offset-used hdr.value_section _);
    more_keys = omega arith;
    more_values = omega arith;
  }

  pub replaced_sections :
      (replaced.store_hdr.item_section ≡ hdr.item_section)
      × (replaced.store_hdr.key_section ≡ hdr.key_section)
      × (replaced.store_hdr.value_section.size ≡ hdr.value_section.size)
      × (replaced.store_items ≡ ctx.store_items)
      × (replaced.store_items_snapshot ≡ ctx.store_items_snapshot)
  unfolding replace_value link_value
  replaced_sections = (refl, refl, refl, refl, refl)

  pub replaced_strings : SameStrings hdr ctx.mem replaced.mem
  unfolding item_len
  replaced_strings = record {
    same_keys = λ x p q. sym (
        replaced_outside x (omega (arith, below))
          (omega (arith, g.keys_used, g.keys_below_values)));
    same_values = λ x p q. sym (
        replaced_outside x (omega (arith, item_below, value_end, below, g.keys_below_values))
          (omega arith));
  }

  next_cnt_le : next_cnt hdr.max_ver_num (val_cnt ctx.mem item) ≤ hdr.max_ver_num
  next_cnt_le = ground arith

  next_cnt_pos : 0 < next_cnt hdr.max_ver_num (val_cnt ctx.mem item)
  next_cnt_pos = ground (arith, g.versions)

  next_cnt_suc : next_cnt hdr.max_ver_num (val_cnt ctx.mem item) ≤ val_cnt ctx.mem item + 1
  next_cnt_suc = ground (arith, valid.cnt_max)

  newest_at : version_at replaced.store_hdr item 1 ≡ val
  unfolding version_address replace_value link_value
  newest_at = sym val_at

  older_at : (v : ℕ) → version_at replaced.store_hdr item v ≡ item + 16 + (hdr.max_ver_num - v) * 16
  unfolding version_address replace_value link_value
  older_at v = refl

  -- The new value is version 1.
  pub replaced_newest :
      SameStr (item_value replaced.store_hdr replaced.mem item 1) (terminated value)
  replaced_newest = rw newest_at (record {
    same_len = replaced-value_len;
    same_bytes = λ i l.
        replaced_bytes _ i (omega (arith, replaced-value_offset))
          (omega (arith, replaced-value_len));
  })

  module _ (v : ℕ) (some_v : 0 < v)
      (kept : v + 1 ≤ next_cnt hdr.max_ver_num (val_cnt ctx.mem item)) where
    older_offset :
        value_offset ctx.mem (version_at hdr item v)
        ≡ value_offset replaced.mem (version_at replaced.store_hdr item (v + 1))
    unfolding version_address
    older_offset = rw (older_at (v + 1)) (
        value_offset-block 16 ctx.mem _ replaced.mem _
          (older_block v some_v kept (omega (arith, next_cnt_le))) 0 _ _ (omega arith) (omega arith)
          (omega arith))

    older_len :
        value_len ctx.mem (version_at hdr item v)
        ≡ value_len replaced.mem (version_at replaced.store_hdr item (v + 1))
    unfolding version_address
    older_len = rw (older_at (v + 1)) (
        value_len-block 16 ctx.mem _ replaced.mem _
          (older_block v some_v kept (omega (arith, next_cnt_le))) 0 _ _ (omega arith) (omega arith)
          (omega arith))

    older_had : v ≤ val_cnt ctx.mem item
    older_had = omega (arith, next_cnt_suc)

    -- The older values are there, one version further back.
    pub replaced_older :
        SameStr
          (item_value hdr ctx.mem item v)
          (item_value replaced.store_hdr replaced.mem item (v + 1))
    replaced_older = record {
      same_len = older_len;
      same_bytes = λ i l.
          replaced_strings.same_values (value_offset ctx.mem (version_at hdr item v) + i)
            (omega (arith, valid.value_from v some_v older_had))
            (omega (arith, valid.value_to v some_v older_had))
          ∙ ap replaced.mem (ap (λ (t : ℕ). t + i) older_offset);
    }

  head_kept : (x : ℕ) → item ≤ x → x < item + 12 → ctx.mem x ≡ replaced.mem x
  head_kept x a b = sym (replaced_outside x (inl b) (inl (omega (arith, head_below))))

  replaced-key_len : key_len ctx.mem item ≡ key_len replaced.mem item
  unfolding key_len
  replaced-key_len =
      load-ext 4 ctx.mem replaced.mem (item + 8) (item + 8)
        (λ i l. head_kept (item + 8 + i) (omega arith) (omega arith))

  replaced-key_offset : key_offset ctx.mem item ≡ key_offset replaced.mem item
  unfolding key_offset
  replaced-key_offset =
      load-ext 8 ctx.mem replaced.mem item item
        (λ i l. head_kept (item + i) (omega arith) (omega arith))

  -- The key stays.
  pub replaced_key : SameStr (item_key ctx.mem item) (item_key replaced.mem item)
  replaced_key = record {
    same_len = replaced-key_len;
    same_bytes = λ i l.
        replaced_strings.same_keys (key_offset ctx.mem item + i) (omega (arith, valid.key_from))
          (omega (arith, valid.key_to))
        ∙ ap replaced.mem (ap (λ (t : ℕ). t + i) replaced-key_offset);
  }

  -- A version of the item afterwards lies in the value area.
  version_in :
      (v : ℕ)
      → 0 < v
      → v ≤ val_cnt replaced.mem item
      → (values hdr ≤ value_offset replaced.mem (version_at replaced.store_hdr item v))
        × (value_offset replaced.mem (version_at replaced.store_hdr item v)
              + value_len replaced.mem (version_at replaced.store_hdr item v)
            ≤ start + (value.len + 1))
  version_in v a b = elim (ℕ_discrete v 1) [
    | yes e ↦
        rw (e, newest_at)
          (
            omega (arith, replaced-value_offset),
            omega (arith, replaced-value_offset, replaced-value_len),
          )
    | no e ↦
        let u = v - 1 in
        let d : v ≡ u + 1 = omega arith in
        let kept : u + 1 ≤ next_cnt hdr.max_ver_num (val_cnt ctx.mem item) =
          omega (arith, replaced-val_cnt) in
        let some_u : 0 < u = omega arith in
        rw d (
          omega (
            arith,
            older_offset u some_u kept,
            valid.value_from u some_u (older_had u some_u kept),
          ),
          omega (
            arith,
            older_offset u some_u kept,
            older_len u some_u kept,
            valid.value_to u some_u (older_had u some_u kept),
          ),
        )
  ]

  pub replaced-IsItem : IsItem replaced.store_hdr replaced.mem item
  replaced-IsItem = record {
    key_short = omega (arith, replaced-key_len, valid.key_short);
    key_some = omega (arith, replaced-key_len, valid.key_some);
    key_from = omega (arith, replaced-key_offset, valid.key_from, replaced-Grows.same_keys);
    key_to = omega (
      arith, replaced-key_offset, replaced-key_len, valid.key_to, replaced-Grows.same_keys,
      replaced-Grows.more_keys,
    );
    cnt_some = omega (arith, replaced-val_cnt, next_cnt_pos);
    cnt_max = omega (arith, replaced-val_cnt, next_cnt_le, replaced-Grows.same_max);
    value_from = λ v a b. omega (arith, (version_in v a b).0, replaced-Grows.same_values);
    value_to =
        λ v a b. omega (arith, (version_in v a b).1, replaced_used, replaced-Grows.same_values);
  }
