-- ===== src/Store/Full.antt =====
-- Writes that change nothing for the readers: `pupa_store_set` of a new key with the item section
-- full, and what a snapshot leaves.
use pupa.Common.{ℕ, ◌≤◌, ◌<◌, ◌≡◌, ◌∙◌, ap, sym, some, arith, step_le}
use pupa.Layout.{offset, item_len}
use pupa.Item.{Str, val_cnt}
use pupa.Item.Block.{SameBlock}
use pupa.Item.Order.{SameStr-trans}
use pupa.Context.{overflow, not_found, Ctx, Env}
use pupa.Write.{make_snapshot, finish_new, pupa_store_item_add, pupa_store_set, pupa_store_del}
use pupa.Store.{IsStore, IsFresh}
use pupa.Store.Find.{IsKey}
use pupa.Store.Get.{HasKey, LacksKey, current}
use pupa.Store.Keep.{Grows-refl, SameItem, kept_items, kept-IsTable}
use pupa.Store.Snapshot.{snapshot_keeps, snapshot_strings, snapshot_misses}
use pupa.Store.Del.{del_missing}
use pupa.Store.Reading.{ReadsAlike, alike}

module _ (ctx : Ctx) (s : IsStore ctx) (fresh : IsFresh ctx) where
  abbrev snap : Ctx
  snap = make_snapshot ctx

  abbrev n : ℕ
  n = ctx.store_hdr.item_section.used

  -- The snapshot leaves the current area as it was.
  same_block :
      (i : ℕ)
      → i < n
      → SameBlock (item_len ctx.store_hdr) ctx.mem (current ctx i) snap.mem (current ctx i)
  same_block i l x y j ex ey h =
      ap ctx.mem (omega arith)
      ∙ sym (
          snapshot_keeps ctx s fresh y (omega arith)
            (omega (arith, step_le i n (item_len ctx.store_hdr) l)))

  pub same_items :
      (i : ℕ)
      → i < n
      → SameItem ctx.store_hdr ctx.mem (current ctx i) snap.store_hdr snap.mem (current snap i)
  unfolding make_snapshot
  same_items =
      kept_items ctx.store_hdr ctx.store_hdr (Grows-refl ctx.store_hdr) ctx.mem snap.mem
        (snapshot_strings ctx s fresh) (offset ctx.store_hdr.item_section)
        (offset ctx.store_hdr.item_section) n same_block s.table

  pub snap-IsStore : IsStore snap
  unfolding make_snapshot
  snap-IsStore = record {
    room = s.room;
    table =
        kept-IsTable ctx.store_hdr ctx.store_hdr (Grows-refl ctx.store_hdr) ctx.mem snap.mem
          (snapshot_strings ctx s fresh) (offset ctx.store_hdr.item_section)
          (offset ctx.store_hdr.item_section) n same_block s.table;
  }

  snap-IsFresh : IsFresh snap
  unfolding make_snapshot
  snap-IsFresh = fresh

  snap_reads :
      (other : Str)
      → IsKey other
      → (o v : ℕ) → HasKey ctx other o
      → 0 < v
      → v ≤ val_cnt ctx.mem (current ctx o)
      → ReadsAlike ctx snap other v v
  unfolding make_snapshot
  snap_reads other k o v h p q =
      let item = same_items o h.inside in
      alike ctx snap s snap-IsStore other k o o v v h
        (record { inside = h.inside; same = SameStr-trans _ _ _ h.same item.same_key }) p q p
        (omega (arith, item.same_cnt)) (item.same_value v p q)

  pub set_full_lem :
      (key : Str)
      → IsKey key
      → LacksKey ctx key
      → (env : Env) (value : Str)
      → ctx.store_hdr.item_section.used ≡ ctx.store_hdr.item_section.size
      → pupa_store_set env ctx key value ≡ some (overflow, snap)
  unfolding pupa_store_set finish_new pupa_store_item_add make_snapshot
  set_full_lem key k absent env value full =
      rw (snapshot_misses ctx s fresh key k absent) (ground (arith, full))

  module _ (key : Str) (k : IsKey key) (absent : LacksKey ctx key) (env : Env) (other : Str)
      (ko : IsKey other) (o v : ℕ) (has : HasKey ctx other o) (positive : 0 < v)
      (there : v ≤ val_cnt ctx.mem (current ctx o)) where
    -- In a fresh store with a full item section, `pupa_store_set` of a new key reports PUPA_OVERFLOW
    -- and leaves a fresh store in which every version of every key is read as before.
    pub set_full :
        (value : Str)
        → ctx.store_hdr.item_section.used ≡ ctx.store_hdr.item_section.size
        → (ctx' : Ctx) × (pupa_store_set env ctx key value ≡ some (overflow, ctx'))
          × IsStore ctx'
          × IsFresh ctx'
          × ReadsAlike ctx ctx' other v v
    set_full value full = (
      snap,
      set_full_lem key k absent env value full,
      snap-IsStore,
      snap-IsFresh,
      snap_reads other ko o v has positive there,
    )

    -- In a fresh store, `pupa_store_del` of a key that no item has reports PUPA_NOT_FOUND and leaves a
    -- fresh store in which every version of every key is read as before.
    pub del_absent :
        (ctx' : Ctx) × (pupa_store_del env ctx key ≡ (not_found, ctx'))
        × IsStore ctx'
        × IsFresh ctx'
        × ReadsAlike ctx ctx' other v v
    del_absent = (
      snap,
      del_missing ctx s fresh key k env absent,
      snap-IsStore,
      snap-IsFresh,
      snap_reads other ko o v has positive there,
    )
