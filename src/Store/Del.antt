-- ===== src/Store/Del.antt =====
-- `pupa_store_del`.
use pupa.Common.{ℕ, ◌+◌, ◌-◌, ◌*◌, ◌/◌, ◌≤◌, ◌<◌, ◌≡◌, ◌∙◌, ap, sym, refl, some, arith}
use pupa.Memory.{Mem, copy, copy_inside}
use pupa.Layout.{Header, offset, snapshot_offset, item_len}
use pupa.Layout.Switch.{offset-switch, snapshot_offset-switch}
use pupa.Item.{Str, key_offset, key_len, value_offset, value_len}
use pupa.Item.Block.{SameBlock, key_len-block, key_offset-block}
use pupa.Context.{not_found, Ctx, Env}
use pupa.Write.{make_snapshot, close_gap, del_found, pupa_store_del, switch_items, sync_status}
use pupa.Store.{IsTable, IsStore, IsFresh, HasRoom, item_at}
use pupa.Store.Find.{IsKey}
use pupa.Store.Get.{HasKey, LacksKey, current}
use pupa.Store.Keep.{Grows, SameStrings, SameItem, SameItem-trans, kept-IsTable, kept_items}
use pupa.Store.Snapshot.{
  snapshot_finds, snapshot_misses, snapshot_block, snapshot_items, snapshot-IsTable,
}

-- `ctx'` is the store `ctx` without its last item.
pub record IsTruncated (ctx ctx' : Ctx) : Type 0 where
  pub store : IsStore ctx'
  pub used : ctx'.store_hdr.item_section.used + 1 ≡ ctx.store_hdr.item_section.used
  pub same_max : ctx'.store_hdr.max_ver_num ≡ ctx.store_hdr.max_ver_num
  pub kept :
      (j : ℕ)
      → j < ctx'.store_hdr.item_section.used
      → SameItem ctx.store_hdr ctx.mem (current ctx j) ctx'.store_hdr ctx'.mem (current ctx' j)

span : (l d j : ℕ) → 32 ≤ l → 1 ≤ d → j < 16 → j < l * d
span l d j h k p = grind arith

module _ (ctx : Ctx) (s : IsStore ctx) (fresh : IsFresh ctx) (key : Str) (k : IsKey key) where
  abbrev hdr : Header
  hdr = ctx.store_hdr

  abbrev n : ℕ
  n = hdr.item_section.used

  abbrev base : ℕ
  base = snapshot_offset hdr.item_section

  abbrev snap : Ctx
  snap = make_snapshot ctx

  module _ (i : ℕ) (has : HasKey ctx key i) where
    reached :
        (env : Env) → pupa_store_del env ctx key ≡ del_found env snap (some (item_at hdr base i))
    unfolding pupa_store_del
    reached env = rw (snapshot_finds ctx s fresh key k i has) refl

    -- The index that the code computes for the item: it counts 16-byte units.
    index_lem : (item_at hdr base i - base) / 16 ≡ i * (hdr.max_ver_num + 1)
    unfolding item_len
    index_lem = omega arith

    -- The index that the code computes reaches the number of the items: nothing is moved.
    far_mem :
        n ≤ i * (hdr.max_ver_num + 1) + 1
        → close_gap snap.mem snap.store_hdr snap.store_items_snapshot (item_at hdr base i)
          ≡ snap.mem
    unfolding close_gap make_snapshot
    far_mem far = ground (arith, index_lem)

    -- It does not: a block is moved by 16 bytes.
    near_mem :
        i * (hdr.max_ver_num + 1) + 1 < n
        → close_gap snap.mem snap.store_hdr snap.store_items_snapshot (item_at hdr base i)
          ≡ copy snap.mem
              (item_at hdr base i)
              (item_at hdr base i + 16)
              (item_len hdr * (n - i * (hdr.max_ver_num + 1) + 1))
    unfolding close_gap make_snapshot
    near_mem near = ground (arith, index_lem)

    abbrev new_ctx : Ctx
    new_ctx = switch_items snap (snap.store_hdr.item_section.used - 1)

    far_result :
        (env : Env)
        → n ≤ i * (hdr.max_ver_num + 1) + 1
        → pupa_store_del env ctx key ≡ (sync_status env, new_ctx)
    unfolding del_found
    far_result env far =
        reached env
        ∙ ap
            (λ (m : Mem). (
              sync_status env,
              switch_items (record snap { mem = m }) (snap.store_hdr.item_section.used - 1),
            ))
            (far_mem far)

    new_at : (j : ℕ) → current new_ctx j ≡ item_at hdr base j
    unfolding switch_items make_snapshot item_len
    new_at j = ap (λ (b : ℕ). b + j * item_len hdr) (offset-switch hdr.item_section (n - 1))

    snap-Grows : Grows hdr new_ctx.store_hdr
    unfolding switch_items make_snapshot
    snap-Grows = record {
      same_max = refl;
      same_keys = refl;
      same_values = refl;
      more_keys = omega arith;
      more_values = omega arith;
    }

    same_strings : SameStrings hdr snap.mem new_ctx.mem
    unfolding switch_items
    same_strings = record { same_keys = λ x p q. refl; same_values = λ x p q. refl }

    new_block :
        (j : ℕ)
        → SameBlock (item_len hdr) snap.mem (item_at hdr base j) new_ctx.mem (current new_ctx j)
    unfolding switch_items
    new_block j x y d ex ey h = ap snap.mem (omega (arith, new_at j))

    new_items :
        (j : ℕ)
        → j < n
        → SameItem hdr snap.mem
            (item_at hdr base j)
            new_ctx.store_hdr
            new_ctx.mem
            (current new_ctx j)
    new_items =
        kept_items hdr new_ctx.store_hdr snap-Grows snap.mem new_ctx.mem same_strings base
          (offset new_ctx.store_hdr.item_section) n (λ j l. new_block j)
          (snapshot-IsTable ctx s fresh)

    new-IsTable : IsTable new_ctx.store_hdr new_ctx.mem (offset new_ctx.store_hdr.item_section) n
    new-IsTable =
        kept-IsTable hdr new_ctx.store_hdr snap-Grows snap.mem new_ctx.mem same_strings base
          (offset new_ctx.store_hdr.item_section) n (λ j l. new_block j)
          (snapshot-IsTable ctx s fresh)

    new_sizes :
        (new_ctx.store_hdr.item_section.used ≡ n - 1)
        × (offset new_ctx.store_hdr.item_section ≡ base)
        × (snapshot_offset new_ctx.store_hdr.item_section ≡ offset hdr.item_section)
        × (item_at new_ctx.store_hdr 0 (n - 1) ≡ item_at hdr 0 (n - 1))
        × (new_ctx.store_hdr.key_section.used ≡ hdr.key_section.used)
        × (new_ctx.store_hdr.key_section.size ≡ hdr.key_section.size)
        × (new_ctx.store_hdr.value_section.used ≡ hdr.value_section.used)
        × (new_ctx.store_hdr.value_section.size ≡ hdr.value_section.size)
    unfolding switch_items make_snapshot item_len
    new_sizes = (
      refl,
      offset-switch hdr.item_section (n - 1),
      snapshot_offset-switch hdr.item_section (n - 1),
      refl,
      refl,
      refl,
      refl,
      refl,
    )

    new-HasRoom : HasRoom new_ctx.store_hdr (n - 1)
    new-HasRoom =
        let g = snap-Grows in
        let z = new_sizes in
        let fewer : (n - 1) * item_len hdr ≤ n * item_len hdr = grind arith in
        record {
          versions = omega (arith, s.room.versions, g.same_max);
          versions_small = omega (arith, s.room.versions_small, g.same_max);
          apart = omega (arith, s.room.apart, z.1, z.2, z.3, fewer);
          below_keys = omega (arith, s.room.snapshot_below_keys, z.1, z.3, fewer, g.same_keys);
          snapshot_below_keys = omega (arith, s.room.below_keys, z.2, z.3, fewer, g.same_keys);
          keys_below_values =
              omega (arith, s.room.keys_below_values, g.same_keys, g.same_values, z.5);
          keys_used = omega (arith, s.room.keys_used, z.4, z.5);
          values_used = omega (arith, s.room.values_used, z.6, z.7);
          small = omega (arith, s.room.small, g.same_values, z.7);
        }

    new-IsTruncated : IsTruncated ctx new_ctx
    new-IsTruncated = record {
      store = record {
        room = rw new_sizes.0 new-HasRoom;
        table = record {
          items = λ j l. new-IsTable.items j (omega (arith, new_sizes.0));
          ordered = λ j m p q. new-IsTable.ordered j m p (omega (arith, new_sizes.0));
        };
      };
      used = omega (arith, new_sizes.0, has.inside);
      same_max = sym snap-Grows.same_max;
      kept = λ j l.
          SameItem-trans _ _ _ _ _ _ _ _ _
            (snapshot_items ctx s fresh j (omega (arith, new_sizes.0)))
            (new_items j (omega (arith, new_sizes.0)));
    }

    -- `pupa_store_del` of an item far enough back removes the last item, whichever item has the key.
    pub del_far :
        (env : Env)
        → n ≤ i * (hdr.max_ver_num + 1) + 1
        → (ctx' : Ctx) × IsTruncated ctx ctx'
          × (pupa_store_del env ctx key ≡ (sync_status env, ctx'))
    del_far env far = (new_ctx, new-IsTruncated, far_result env far)

    -- The memory after the block move.
    abbrev gap_mem : Mem
    gap_mem =
        copy snap.mem (item_at hdr base i) (item_at hdr base i + 16)
          (item_len hdr * (n - i * (hdr.max_ver_num + 1) + 1))

    abbrev gap_ctx : Ctx
    gap_ctx = switch_items (record snap { mem = gap_mem }) (snap.store_hdr.item_section.used - 1)

    near_result :
        (env : Env)
        → i * (hdr.max_ver_num + 1) + 1 < n
        → pupa_store_del env ctx key ≡ (sync_status env, gap_ctx)
    unfolding del_found
    near_result env near =
        reached env
        ∙ ap
            (λ (m : Mem). (
              sync_status env,
              switch_items (record snap { mem = m }) (snap.store_hdr.item_section.used - 1),
            ))
            (near_mem near)

    gap_at : current gap_ctx i ≡ item_at hdr base i
    unfolding switch_items make_snapshot item_len
    gap_at = ap (λ (b : ℕ). b + i * item_len hdr) (offset-switch hdr.item_section (n - 1))

    long : 32 ≤ item_len hdr
    unfolding item_len
    long = omega (arith, s.room.versions)

    -- The first 16 bytes of the item are those that stood 16 bytes further on.
    gap_block :
        i * (hdr.max_ver_num + 1) + 1 < n
        → SameBlock 16 gap_ctx.mem (current gap_ctx i) ctx.mem (current ctx i + 16)
    unfolding switch_items
    gap_block near x y j ex ey h =
        copy_inside snap.mem (item_at hdr base i) (item_at hdr base i + 16) _ x j
          (omega (arith, gap_at)) (span (item_len hdr) _ j long (omega arith) h)
        ∙ sym (
            snapshot_block ctx s fresh i has.inside y (item_at hdr base i + 16 + j) (16 + j)
              (omega arith) (omega arith) (omega (arith, long)))

    -- In a fresh store of `n` items, let `pupa_store_del` be given the key of item `i`, with
    -- `i * (max_ver_num + 1) + 1 < n`. It moves by 16 bytes, not by an item: afterwards one item less is
    -- counted, and the key of item `i` is described by the first value record of the deleted item.
    pub del_near :
        (env : Env)
        → i * (hdr.max_ver_num + 1) + 1 < n
        → (ctx' : Ctx) × (pupa_store_del env ctx key ≡ (sync_status env, ctx'))
          × (ctx'.store_hdr.item_section.used + 1 ≡ n)
          × (key_offset ctx'.mem (current ctx' i) ≡ value_offset ctx.mem (current ctx i + 16))
          × (key_len ctx'.mem (current ctx' i) ≡ value_len ctx.mem (current ctx i + 16))
    unfolding key_offset key_len value_offset value_len switch_items make_snapshot
    del_near env near = (
      gap_ctx,
      near_result env near,
      omega arith,
      key_offset-block 16 gap_ctx.mem _ ctx.mem _ (gap_block near) (omega arith),
      key_len-block 16 gap_ctx.mem _ ctx.mem _ (gap_block near) (omega arith),
    )

  -- `pupa_store_del` of a key that is not there changes nothing that a reader sees.
  pub del_missing : (env : Env) → LacksKey ctx key → pupa_store_del env ctx key ≡ (not_found, snap)
  unfolding pupa_store_del
  del_missing env absent = rw (snapshot_misses ctx s fresh key k absent) refl
