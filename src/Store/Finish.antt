-- ===== src/Store/Finish.antt =====
-- The end of `pupa_store_set` for a new key: the snapshot with the added item is sorted, and becomes
-- the current area.
use pupa.Common.{ℕ, ◌+◌, ◌*◌, ◌^◌, ◌<◌, ◌≡◌, ◌∙◌, ap, sym, refl, true, Option, none, some, arith}
use pupa.Memory.{Mem}
use pupa.Layout.{Header, offset, snapshot_offset, item_len}
use pupa.Layout.Switch.{offset-switch, snapshot_offset-switch}
use pupa.Item.{Str, val_cnt}
use pupa.Item.Block.{SameBlock}
use pupa.Item.Order.{item_key, SameStr, SameStr-trans, SameStr-sym}
use pupa.Context.{ok, Ctx, Env}
use pupa.Sort.{insert_last, pupa_sort}
use pupa.Write.{
  count_item, sort_counted, finish_new, finish_sort, switch_items, sync_status, write_key,
  add_value, link_value,
}
use pupa.Write.Strings.{terminated}
use pupa.Store.{IsItem, IsTable, IsStore, IsFresh, HasRoom, keys, values, item_at, item_value}
use pupa.Store.Get.{current}
use pupa.Store.Keep.{Grows, SameStrings, SameItem, SameItem-trans, kept-IsTable, kept_items}
use pupa.Store.Insert.{IsInserted, Sorts, shifted, shifted_le, sort_table}
use pupa.Store.Added.{
  Fits, added, added-key_used, added-value_used, added-Grows, added_key, added_value, added-IsItem,
  added_items, added-IsTable,
}

finish_new_lem :
    (env : Env) (c : Ctx) (base n : ℕ) (o : Option Mem)
    → env.allocated ≡ true
    → c.store_items_snapshot ≡ base
    → c.store_hdr.item_section.used ≡ n
    → pupa_sort c.mem true base (n + 1) (item_len c.store_hdr) ≡ o
    → finish_new env (ok, c) ≡ finish_sort env (count_item c) o
unfolding finish_new sort_counted item_len
finish_new_lem env c base n o a b u e =
    let same : pupa_sort c.mem env.allocated c.store_items_snapshot
          (c.store_hdr.item_section.used + 1) (item_len c.store_hdr)
        ≡ pupa_sort c.mem true base (n + 1) (item_len c.store_hdr) =
      λ i. pupa_sort c.mem (a i) (b i) (u i + 1) (item_len c.store_hdr) in
    ap (finish_sort env (count_item c)) (same ∙ e)

-- `ctx` holds the snapshot of a table that lacks the key, and has room for the new item.
pub record IsReady (ctx : Ctx) (key value : Str) : Type 0 where
  pub short : key.len + 1 < 2 ^ 31
  pub fits : Fits ctx.store_hdr key value
  pub room : HasRoom ctx.store_hdr (ctx.store_hdr.item_section.used + 1)
  pub table :
      IsTable ctx.store_hdr ctx.mem
        (snapshot_offset ctx.store_hdr.item_section)
        ctx.store_hdr.item_section.used
  pub absent :
      (i : ℕ)
      → i < ctx.store_hdr.item_section.used
      → ¬ SameStr
          (terminated key)
          (item_key ctx.mem (item_at ctx.store_hdr (snapshot_offset ctx.store_hdr.item_section) i))
  pub points : ctx.store_items_snapshot ≡ snapshot_offset ctx.store_hdr.item_section

-- From the snapshot that `ctx` holds to the end of the call.
module _ (ctx : Ctx) (key value : Str) (ready : IsReady ctx key value) where
  open ready use {short, fits, room as g, table as t, absent, points}

  abbrev pub hdr : Header
  hdr = ctx.store_hdr

  abbrev pub n : ℕ
  n = hdr.item_section.used

  abbrev pub base : ℕ
  base = snapshot_offset hdr.item_section

  abbrev pub extended : Ctx
  extended = added ctx key value short fits g

  abbrev pub sorted_mem : ℕ → Mem
  sorted_mem r = insert_last extended.mem base (item_len extended.store_hdr) n r

  abbrev pub finished : ℕ → Ctx
  finished r =
      let sorted = record extended {
        mem = sorted_mem r;
        store_items = extended.store_items_snapshot;
      } in
      switch_items sorted (extended.store_hdr.item_section.used + 1)

  same_item_at : (i : ℕ) → item_at extended.store_hdr base i ≡ item_at hdr base i
  unfolding item_len write_key add_value link_value
  same_item_at i = refl

  last_key : SameStr (item_key extended.mem (item_at extended.store_hdr base n)) (terminated key)
  unfolding item_len write_key add_value link_value
  last_key = added_key ctx key value short fits g

  last_item : IsItem extended.store_hdr extended.mem (item_at extended.store_hdr base n)
  unfolding item_len write_key add_value link_value
  last_item = added-IsItem ctx key value short fits g

  added_absent :
      (i : ℕ)
      → i < n
      → ¬ SameStr
          (item_key extended.mem (item_at extended.store_hdr base n))
          (item_key extended.mem (item_at extended.store_hdr base i))
  added_absent i l same = absent i l (
      SameStr-trans _ _ _ (SameStr-sym _ _ last_key) (
        SameStr-trans _ _ _ same
          (SameStr-sym _ _ (added_items ctx key value short fits g t i l).same_key)))

  grown : Grows hdr extended.store_hdr
  grown = added-Grows ctx key value short fits g

  pub sorting : (r : ℕ) × Sorts extended.store_hdr extended.mem base n r
  sorting =
      sort_table extended.store_hdr extended.mem base n (added-IsTable ctx key value short fits g t)
        last_item (omega (arith, g.snapshot_below_keys, same_item_at (n + 1), grown.same_keys))
        (omega (arith, g.keys_below_values, grown.same_keys, grown.same_values)) added_absent

  finished_current : (r i : ℕ) → current (finished r) i ≡ item_at extended.store_hdr base i
  unfolding switch_items write_key add_value link_value item_len
  finished_current r i =
      ap (λ (b : ℕ). b + i * item_len hdr) (offset-switch hdr.item_section (n + 1))

  finished-Grows : (r : ℕ) → Grows extended.store_hdr (finished r).store_hdr
  unfolding switch_items
  finished-Grows r = record {
    same_max = refl;
    same_keys = refl;
    same_values = refl;
    more_keys = omega arith;
    more_values = omega arith;
  }

  finished_strings : (r : ℕ) → SameStrings extended.store_hdr (sorted_mem r) (finished r).mem
  unfolding switch_items
  finished_strings r = record { same_keys = λ x p q. refl; same_values = λ x p q. refl }

  extended_snapshot : extended.store_items_snapshot ≡ base
  unfolding write_key add_value link_value
  extended_snapshot = points

  extended_used : extended.store_hdr.item_section.used ≡ n
  unfolding write_key add_value link_value
  extended_used = refl

  -- The call returns with the sorted snapshot in place, or the sort left the array.
  pub finish_lem :
      (env : Env) (r : ℕ)
      → env.allocated ≡ true
      → (pupa_sort extended.mem true base (n + 1) (item_len extended.store_hdr)
            ≡ some (sorted_mem r)
          → finish_new env (ok, extended) ≡ some (sync_status env, finished r))
        × (pupa_sort extended.mem true base (n + 1) (item_len extended.store_hdr) ≡ none
            → finish_new env (ok, extended) ≡ none)
  unfolding finish_sort count_item switch_items
  finish_lem env r a = (
    finish_new_lem env extended base n (some (sorted_mem r)) a extended_snapshot extended_used,
    finish_new_lem env extended base n none a extended_snapshot extended_used,
  )

  finished_block :
      (r i : ℕ)
      → SameBlock
          (item_len extended.store_hdr)
          (sorted_mem r)
          (item_at extended.store_hdr base i)
          (finished r).mem
          (current (finished r) i)
  unfolding switch_items
  finished_block r i x y j ex ey h = ap (sorted_mem r) (omega (arith, finished_current r i))

  finished_items :
      (r : ℕ)
      → IsInserted extended.store_hdr extended.mem (sorted_mem r) base n r
      → (i : ℕ) → i < n + 1
      → SameItem extended.store_hdr
          (sorted_mem r)
          (item_at extended.store_hdr base i)
          (finished r).store_hdr
          (finished r).mem
          (current (finished r) i)
  finished_items r ins =
      kept_items extended.store_hdr (finished r).store_hdr (finished-Grows r) (sorted_mem r)
        (finished r).mem (finished_strings r) base (offset (finished r).store_hdr.item_section)
        (n + 1) (λ i l. finished_block r i) ins.table

  finished-IsTable :
      (r : ℕ)
      → IsInserted extended.store_hdr extended.mem (sorted_mem r) base n r
      → IsTable
          (finished r).store_hdr
          (finished r).mem
          (offset (finished r).store_hdr.item_section)
          (n + 1)
  finished-IsTable r ins =
      kept-IsTable extended.store_hdr (finished r).store_hdr (finished-Grows r) (sorted_mem r)
        (finished r).mem (finished_strings r) base (offset (finished r).store_hdr.item_section)
        (n + 1) (λ i l. finished_block r i) ins.table

  finished_new : (r : ℕ) → offset (finished r).store_hdr.item_section ≡ base
  unfolding switch_items write_key add_value link_value
  finished_new r = offset-switch hdr.item_section (n + 1)

  finished_old :
      (r : ℕ) → snapshot_offset (finished r).store_hdr.item_section ≡ offset hdr.item_section
  unfolding switch_items write_key add_value link_value
  finished_old r = snapshot_offset-switch hdr.item_section (n + 1)

  finished_len : (r i b : ℕ) → item_at (finished r).store_hdr b i ≡ item_at hdr b i
  unfolding switch_items write_key add_value link_value item_len
  finished_len r i b = refl

  record IsFilled (h : Header) : Type 0 where
    max : h.max_ver_num ≡ hdr.max_ver_num
    key_start : keys h ≡ keys hdr
    value_start : values h ≡ values hdr
    key_size : h.key_section.size ≡ hdr.key_section.size
    value_size : h.value_section.size ≡ hdr.value_section.size
    key_used : h.key_section.used ≡ hdr.key_section.used + (key.len + 1)
    value_used : h.value_section.used ≡ hdr.value_section.used + (value.len + 1)

  finished-IsFilled : (r : ℕ) → IsFilled (finished r).store_hdr
  unfolding switch_items write_key add_value link_value
  finished-IsFilled r = record {
    max = refl;
    key_start = sym grown.same_keys;
    value_start = sym grown.same_values;
    key_size = refl;
    value_size = refl;
    key_used = added-key_used ctx key value short fits g;
    value_used = added-value_used ctx key value short fits g;
  }

  finished-HasRoom : (r : ℕ) → HasRoom (finished r).store_hdr (n + 1)
  finished-HasRoom r =
      let f = finished-IsFilled r in
      let new = finished_new r in
      let old = finished_old r in
      let len = finished_len r (n + 1) 0 in
      record {
        versions = omega (arith, g.versions, f.max);
        versions_small = omega (arith, g.versions_small, f.max);
        apart = omega (arith, g.apart, new, old, len);
        below_keys = omega (arith, g.snapshot_below_keys, new, len, f.key_start);
        snapshot_below_keys = omega (arith, g.below_keys, old, len, f.key_start);
        keys_below_values =
            omega (arith, g.keys_below_values, f.key_start, f.value_start, f.key_size);
        keys_used = omega (arith, fits.key_free, f.key_used, f.key_size);
        values_used = omega (arith, fits.value_free, f.value_used, f.value_size);
        small = omega (arith, g.small, f.value_start, f.value_size);
      }

  pub finished_used : (r : ℕ) → (finished r).store_hdr.item_section.used ≡ n + 1
  unfolding switch_items write_key add_value link_value
  finished_used r = refl

  pub finished-IsStore :
      (r : ℕ)
      → IsInserted extended.store_hdr extended.mem (sorted_mem r) base n r
      → IsStore (finished r)
  finished-IsStore r ins = record {
    room = rw (finished_used r) (finished-HasRoom r);
    table = rw (finished_used r) (finished-IsTable r ins);
  }

  pub finished-IsFresh : (r : ℕ) → IsFresh (finished r)
  unfolding switch_items
  finished-IsFresh r = extended_snapshot ∙ sym (finished_new r)

  -- The other items of the snapshot are in the new store, ...
  pub finished_others :
      (r : ℕ)
      → IsInserted extended.store_hdr extended.mem (sorted_mem r) base n r
      → (i : ℕ) → i < n
      → SameItem hdr ctx.mem
          (item_at hdr base i)
          (finished r).store_hdr
          (finished r).mem
          (current (finished r) (shifted r i))
  finished_others r ins i l =
      SameItem-trans _ _ _ _ _ _ _ _ _ (added_items ctx key value short fits g t i l) (
        SameItem-trans _ _ _ _ _ _ _ _ _ (ins.moved i l)
          (finished_items r ins (shifted r i) (omega (arith, shifted_le n r i l))))

  placed :
      (r : ℕ)
      → IsInserted extended.store_hdr extended.mem (sorted_mem r) base n r
      → SameItem extended.store_hdr extended.mem
          (item_at extended.store_hdr base n)
          (finished r).store_hdr
          (finished r).mem
          (current (finished r) r)
  placed r ins =
      SameItem-trans _ _ _ _ _ _ _ _ _ ins.new (finished_items r ins r (omega (arith, ins.within)))

  -- ... and at place `r` the new one.
  pub finished_key :
      (r : ℕ)
      → IsInserted extended.store_hdr extended.mem (sorted_mem r) base n r
      → SameStr (item_key (finished r).mem (current (finished r) r)) (terminated key)
  finished_key r ins = SameStr-trans _ _ _ (SameStr-sym _ _ (placed r ins).same_key) last_key

  last_value_new :
      (val_cnt extended.mem (item_at extended.store_hdr base n) ≡ 1)
      × SameStr
          (item_value extended.store_hdr extended.mem (item_at extended.store_hdr base n) 1)
          (terminated value)
  unfolding item_len write_key add_value link_value
  last_value_new = added_value ctx key value short fits g

  pub finished_value :
      (r : ℕ)
      → IsInserted extended.store_hdr extended.mem (sorted_mem r) base n r
      → (val_cnt (finished r).mem (current (finished r) r) ≡ 1)
        × SameStr
            (item_value (finished r).store_hdr (finished r).mem (current (finished r) r) 1)
            (terminated value)
  finished_value r ins = (
    sym (placed r ins).same_cnt ∙ last_value_new.0,
    SameStr-trans _ _ _
        (SameStr-sym _ _
          ((placed r ins).same_value 1 (omega arith) (omega (arith, last_value_new.0))))
        last_value_new.1,
  )
