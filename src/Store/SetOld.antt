-- ===== src/Store/SetOld.antt =====
-- `pupa_store_set` of a key that is there, where the value fits without a compaction.
use pupa.Common.{ℕ, ◌+◌, ◌*◌, ◌≤◌, ◌<◌, ◌≡◌, ◌≢◌, ◌∙◌, ap, sym, refl, ◌⊎◌, some, arith, step_le}
use pupa.Layout.{Header, Section, offset, snapshot_offset, item_len}
use pupa.Layout.Switch.{offset-switch, snapshot_offset-switch}
use pupa.Item.{Str, val_cnt}
use pupa.Item.Block.{SameBlock}
use pupa.Item.Order.{item_key, SameStr, SameStr-trans, SameStr-sym}
use pupa.Context.{ok, Ctx, Env}
use pupa.Write.{
  make_snapshot, pupa_store_item_replace, replace_value, link_value, finish_old, pupa_store_set,
  switch_items, sync_status,
}
use pupa.Write.Strings.{terminated}
use pupa.Write.Shift.{next_cnt}
use pupa.Store.{IsItem, IsTable, IsStore, IsFresh, HasRoom, keys, item_at, item_value}
use pupa.Store.Find.{IsKey}
use pupa.Store.Get.{HasKey, current}
use pupa.Store.Keep.{
  Grows, Grows-trans, SameStrings, SameItem, SameItem-trans, kept-IsTable, kept_items,
}
use pupa.Store.Snapshot.{
  snapshot_finds, snapshot_items, snapshot-IsTable, snapshot_keeps, snapshot_strings,
}
use pupa.Store.Replaced.{
  FitsValue, item_replace_lem, replaced_outside, replaced-val_cnt, replaced_sections,
  replaced_newest, replaced_older, replaced_key, replaced_used,
}
use pupa.Store.ReplacedTable.{after, below, valid, grown, strings, other_item, IsTable-after}

-- `ctx'` is the store `ctx` with a new version of its item `i`. `ctx->store_items` still points at the
-- area that was current before, which holds the items of `ctx`.
pub record IsReplaced (ctx ctx' : Ctx) (value : Str) (i : ℕ) : Type 0 where
  pub store : IsStore ctx'
  pub used : ctx'.store_hdr.item_section.used ≡ ctx.store_hdr.item_section.used
  pub others :
      (j : ℕ)
      → j < ctx.store_hdr.item_section.used
      → j ≢ i
      → SameItem ctx.store_hdr ctx.mem (current ctx j) ctx'.store_hdr ctx'.mem (current ctx' j)
  pub same_key : SameStr (item_key ctx.mem (current ctx i)) (item_key ctx'.mem (current ctx' i))
  pub counted :
      val_cnt ctx'.mem (current ctx' i)
      ≡ next_cnt ctx.store_hdr.max_ver_num (val_cnt ctx.mem (current ctx i))
  pub newest : SameStr (item_value ctx'.store_hdr ctx'.mem (current ctx' i) 1) (terminated value)
  pub older :
      (v : ℕ)
      → 0 < v
      → v + 1 ≤ val_cnt ctx'.mem (current ctx' i)
      → SameStr
          (item_value ctx.store_hdr ctx.mem (current ctx i) v)
          (item_value ctx'.store_hdr ctx'.mem (current ctx' i) (v + 1))
  pub stale : ctx'.store_items ≡ snapshot_offset ctx'.store_hdr.item_section
  pub left_behind :
      (j : ℕ)
      → j < ctx.store_hdr.item_section.used
      → SameItem ctx.store_hdr ctx.mem
          (current ctx j)
          ctx'.store_hdr
          ctx'.mem
          (item_at ctx'.store_hdr ctx'.store_items j)
  pub left_table : IsTable ctx'.store_hdr ctx'.mem ctx'.store_items ctx'.store_hdr.item_section.used

-- What a replacement leaves of the room in `ctx`.
pub record IsFilled (ctx ctx' : Ctx) (value : Str) : Type 0 where
  pub room : (x : ℕ) → HasRoom ctx.store_hdr x → HasRoom ctx'.store_hdr x
  pub item_size : ctx'.store_hdr.item_section.size ≡ ctx.store_hdr.item_section.size
  pub key_used : ctx'.store_hdr.key_section.used ≡ ctx.store_hdr.key_section.used
  pub key_size : ctx'.store_hdr.key_section.size ≡ ctx.store_hdr.key_section.size
  pub value_used :
      ctx'.store_hdr.value_section.used ≡ ctx.store_hdr.value_section.used + (value.len + 1)
  pub value_size : ctx'.store_hdr.value_section.size ≡ ctx.store_hdr.value_section.size

module _ (ctx : Ctx) (s : IsStore ctx) (fresh : IsFresh ctx) (key value : Str) (k : IsKey key)
    (fits : FitsValue ctx.store_hdr value) (i : ℕ) (has : HasKey ctx key i) where
  abbrev hdr : Header
  hdr = ctx.store_hdr

  abbrev n : ℕ
  n = hdr.item_section.used

  abbrev base : ℕ
  base = snapshot_offset hdr.item_section

  abbrev snap : Ctx
  snap = make_snapshot ctx

  pub snap_fits : FitsValue snap.store_hdr value
  unfolding make_snapshot
  snap_fits = fits

  pub snap_room : HasRoom snap.store_hdr snap.store_hdr.item_section.used
  unfolding make_snapshot
  snap_room = s.room

  pub snap-IsTable : IsTable snap.store_hdr snap.mem base snap.store_hdr.item_section.used
  unfolding make_snapshot
  snap-IsTable = snapshot-IsTable ctx s fresh

  pub snap_inside : i < snap.store_hdr.item_section.used
  unfolding make_snapshot
  snap_inside = has.inside

  pub snap_area : item_at snap.store_hdr base snap.store_hdr.item_section.used ≤ keys snap.store_hdr
  unfolding make_snapshot
  snap_area = s.room.snapshot_below_keys

  abbrev pub changed : Ctx
  changed = after snap value snap_fits base i snap_room snap-IsTable snap_inside snap_area

  abbrev pub new_ctx : Ctx
  new_ctx = switch_items changed changed.store_hdr.item_section.used

  pub reached :
      (env : Env)
      → pupa_store_set env ctx key value
        ≡ finish_old env (pupa_store_item_replace snap (item_at hdr base i) value)
  unfolding pupa_store_set
  reached env = rw (snapshot_finds ctx s fresh key k i has) refl

  pub replaced_ok : pupa_store_item_replace snap (item_at hdr base i) value ≡ (ok, changed)
  unfolding make_snapshot
  replaced_ok =
      item_replace_lem snap (item_at hdr base i) value snap_fits
        (below snap value snap_fits base i snap_room snap-IsTable snap_inside snap_area) n snap_room
        (valid snap value snap_fits base i snap_room snap-IsTable snap_inside snap_area)

  pub finished : (env : Env) → finish_old env (ok, changed) ≡ some (sync_status env, new_ctx)
  unfolding finish_old
  finished env = refl

  changed_used : changed.store_hdr.item_section.used ≡ n
  unfolding make_snapshot replace_value link_value
  changed_used = refl

  new_area : offset new_ctx.store_hdr.item_section ≡ base
  unfolding switch_items make_snapshot replace_value link_value
  new_area = offset-switch hdr.item_section n

  old_area : snapshot_offset new_ctx.store_hdr.item_section ≡ offset hdr.item_section
  unfolding switch_items make_snapshot replace_value link_value
  old_area = snapshot_offset-switch hdr.item_section n

  new_len : (b j : ℕ) → item_at new_ctx.store_hdr b j ≡ item_at hdr b j
  unfolding switch_items make_snapshot replace_value link_value item_len
  new_len b j = refl

  switched-Grows : Grows changed.store_hdr new_ctx.store_hdr
  unfolding switch_items
  switched-Grows = record {
    same_max = refl;
    same_keys = refl;
    same_values = refl;
    more_keys = omega arith;
    more_values = omega arith;
  }

  same_mem : new_ctx.mem ≡ changed.mem
  unfolding switch_items
  same_mem = refl

  switched_strings : SameStrings changed.store_hdr changed.mem new_ctx.mem
  unfolding switch_items
  switched_strings = record { same_keys = λ x p q. refl; same_values = λ x p q. refl }

  new_at : (j : ℕ) → current new_ctx j ≡ item_at changed.store_hdr base j
  unfolding switch_items make_snapshot replace_value link_value item_len
  new_at j = ap (λ (b : ℕ). b + j * item_len hdr) (offset-switch hdr.item_section n)

  switched_block :
      (j : ℕ)
      → SameBlock
          (item_len changed.store_hdr)
          changed.mem
          (item_at changed.store_hdr base j)
          new_ctx.mem
          (current new_ctx j)
  unfolding switch_items
  switched_block j x y d ex ey h = ap changed.mem (omega (arith, new_at j))

  pub changed-IsTable : IsTable changed.store_hdr changed.mem base n
  unfolding make_snapshot
  changed-IsTable =
      IsTable-after snap value snap_fits base i snap_room snap-IsTable snap_inside snap_area

  new_items :
      (j : ℕ)
      → j < n
      → SameItem changed.store_hdr changed.mem
          (item_at changed.store_hdr base j)
          new_ctx.store_hdr
          new_ctx.mem
          (current new_ctx j)
  new_items =
      kept_items changed.store_hdr new_ctx.store_hdr switched-Grows changed.mem new_ctx.mem
        switched_strings base (offset new_ctx.store_hdr.item_section) n (λ j l. switched_block j)
        changed-IsTable

  new-IsTable : IsTable new_ctx.store_hdr new_ctx.mem (offset new_ctx.store_hdr.item_section) n
  new-IsTable =
      kept-IsTable changed.store_hdr new_ctx.store_hdr switched-Grows changed.mem new_ctx.mem
        switched_strings base (offset new_ctx.store_hdr.item_section) n (λ j l. switched_block j)
        changed-IsTable

  -- From the store before the call to the store after it.
  changed-Grows : Grows hdr changed.store_hdr
  unfolding make_snapshot
  changed-Grows = grown snap value snap_fits base i snap_room snap-IsTable snap_inside snap_area

  whole-Grows : Grows hdr new_ctx.store_hdr
  whole-Grows = Grows-trans hdr changed.store_hdr new_ctx.store_hdr changed-Grows switched-Grows

  whole_strings : SameStrings hdr ctx.mem new_ctx.mem
  unfolding make_snapshot switch_items
  whole_strings =
      let first = snapshot_strings ctx s fresh in
      let second =
        strings snap value snap_fits base i snap_room snap-IsTable snap_inside snap_area in
      record {
        same_keys = λ x p q. first.same_keys x p q ∙ second.same_keys x p q;
        same_values = λ x p q. first.same_values x p q ∙ second.same_values x p q;
      }

  item_apart :
      (x : ℕ)
      → offset hdr.item_section ≤ x
      → x < item_at hdr (offset hdr.item_section) n
      → (x < item_at hdr base i) ⊎ (item_at hdr base i + item_len hdr ≤ x)
  item_apart x p q = omega (arith, s.room.apart, step_le i n (item_len hdr) has.inside)

  old_bytes :
      (x : ℕ)
      → offset hdr.item_section ≤ x
      → x < item_at hdr (offset hdr.item_section) n
      → ctx.mem x ≡ new_ctx.mem x
  unfolding make_snapshot switch_items
  old_bytes x p q = sym (
      replaced_outside snap (item_at hdr base i) value snap_fits
        (below snap value snap_fits base i snap_room snap-IsTable snap_inside snap_area) n snap_room
        (valid snap value snap_fits base i snap_room snap-IsTable snap_inside snap_area) x
        (omega (arith, item_apart x p q))
        (omega (arith, s.room.below_keys, s.room.keys_below_values))
      ∙ snapshot_keeps ctx s fresh x p q)

  old_block :
      (j : ℕ)
      → j < n
      → SameBlock
          (item_len hdr)
          ctx.mem
          (current ctx j)
          new_ctx.mem
          (item_at new_ctx.store_hdr (snapshot_offset new_ctx.store_hdr.item_section) j)
  old_block j l x y d ex ey h =
      let e : x ≡ y =
        omega (arith, old_area, new_len (snapshot_offset new_ctx.store_hdr.item_section) j) in
      old_bytes x (omega arith) (omega (arith, step_le j n (item_len hdr) l)) ∙ ap new_ctx.mem e

  old_items :
      (j : ℕ)
      → j < n
      → SameItem hdr ctx.mem
          (current ctx j)
          new_ctx.store_hdr
          new_ctx.mem
          (item_at new_ctx.store_hdr (snapshot_offset new_ctx.store_hdr.item_section) j)
  old_items =
      kept_items hdr new_ctx.store_hdr whole-Grows ctx.mem new_ctx.mem whole_strings
        (offset hdr.item_section) (snapshot_offset new_ctx.store_hdr.item_section) n old_block
        s.table

  old-IsTable :
      IsTable new_ctx.store_hdr new_ctx.mem (snapshot_offset new_ctx.store_hdr.item_section) n
  old-IsTable =
      kept-IsTable hdr new_ctx.store_hdr whole-Grows ctx.mem new_ctx.mem whole_strings
        (offset hdr.item_section) (snapshot_offset new_ctx.store_hdr.item_section) n old_block
        s.table

  -- The sizes and fills of the sections after the call.
  new_sizes :
      (new_ctx.store_hdr.key_section.used ≡ hdr.key_section.used)
      × (new_ctx.store_hdr.key_section.size ≡ hdr.key_section.size)
      × (new_ctx.store_hdr.value_section.size ≡ hdr.value_section.size)
      × (new_ctx.store_hdr.value_section.used ≡ hdr.value_section.used + (value.len + 1))
      × (new_ctx.store_hdr.item_section.used ≡ n)
      × (new_ctx.store_items ≡ ctx.store_items)
  unfolding switch_items make_snapshot
  new_sizes =
      let area = below snap value snap_fits base i snap_room snap-IsTable snap_inside snap_area in
      let item_ok =
        valid snap value snap_fits base i snap_room snap-IsTable snap_inside snap_area in
      let same =
        replaced_sections snap (item_at hdr base i) value snap_fits area n snap_room item_ok in
      (
        ap (λ (t : Section). t.used) same.1,
        ap (λ (t : Section). t.size) same.1,
        same.2,
        replaced_used snap (item_at hdr base i) value snap_fits area n snap_room item_ok,
        changed_used,
        same.3,
      )

  new-HasRoom : (x : ℕ) → HasRoom hdr x → HasRoom new_ctx.store_hdr x
  new-HasRoom x room =
      let g = whole-Grows in
      let len = new_len 0 x in
      record {
        versions = omega (arith, room.versions, g.same_max);
        versions_small = omega (arith, room.versions_small, g.same_max);
        apart = omega (arith, room.apart, new_area, old_area, len);
        below_keys = omega (arith, room.snapshot_below_keys, new_area, len, g.same_keys);
        snapshot_below_keys = omega (arith, room.below_keys, old_area, len, g.same_keys);
        keys_below_values =
            omega (arith, room.keys_below_values, g.same_keys, g.same_values, new_sizes.1);
        keys_used = omega (arith, room.keys_used, new_sizes.0, new_sizes.1);
        values_used = omega (arith, fits.value_free, new_sizes.2, new_sizes.3);
        small = omega (arith, room.small, g.same_values, new_sizes.2);
      }

  stale_items : new_ctx.store_items ≡ snapshot_offset new_ctx.store_hdr.item_section
  stale_items = new_sizes.5 ∙ fresh ∙ sym old_area

  snap_item :
      (j : ℕ) → j < n → SameItem hdr ctx.mem (current ctx j) hdr snap.mem (item_at hdr base j)
  snap_item = snapshot_items ctx s fresh

  -- The step from the snapshot to the replaced item.
  changed_other :
      (j : ℕ)
      → j < n
      → j ≢ i
      → SameItem hdr snap.mem
          (item_at hdr base j)
          changed.store_hdr
          changed.mem
          (item_at changed.store_hdr base j)
  unfolding make_snapshot replace_value link_value item_len
  changed_other j l ne =
      other_item snap value snap_fits base i snap_room snap-IsTable snap_inside snap_area j l ne

  area : item_at snap.store_hdr base i + item_len snap.store_hdr ≤ keys snap.store_hdr
  area = below snap value snap_fits base i snap_room snap-IsTable snap_inside snap_area

  item_ok : IsItem snap.store_hdr snap.mem (item_at snap.store_hdr base i)
  item_ok = valid snap value snap_fits base i snap_room snap-IsTable snap_inside snap_area

  changed_item :
      SameStr
        (item_key snap.mem (item_at hdr base i))
        (item_key changed.mem (item_at changed.store_hdr base i))
      × (val_cnt changed.mem (item_at changed.store_hdr base i)
          ≡ next_cnt hdr.max_ver_num (val_cnt snap.mem (item_at hdr base i)))
      × SameStr
          (item_value changed.store_hdr changed.mem (item_at changed.store_hdr base i) 1)
          (terminated value)
      × ((v : ℕ)
          → 0 < v
          → v + 1 ≤ next_cnt hdr.max_ver_num (val_cnt snap.mem (item_at hdr base i))
          → SameStr
              (item_value hdr snap.mem (item_at hdr base i) v)
              (item_value changed.store_hdr changed.mem (item_at changed.store_hdr base i) (v + 1)))
  unfolding make_snapshot replace_value link_value item_len
  changed_item = (
    replaced_key snap (item_at hdr base i) value snap_fits area n snap_room item_ok,
    replaced-val_cnt snap (item_at hdr base i) value snap_fits area n snap_room item_ok,
    replaced_newest snap (item_at hdr base i) value snap_fits area n snap_room item_ok,
    replaced_older snap (item_at hdr base i) value snap_fits area n snap_room item_ok,
  )

  before : SameItem hdr ctx.mem (current ctx i) hdr snap.mem (item_at hdr base i)
  before = snap_item i has.inside

  later :
      SameItem changed.store_hdr changed.mem
        (item_at changed.store_hdr base i)
        new_ctx.store_hdr
        new_ctx.mem
        (current new_ctx i)
  later = new_items i has.inside

  cnt_after :
      val_cnt new_ctx.mem (current new_ctx i)
      ≡ next_cnt hdr.max_ver_num (val_cnt ctx.mem (current ctx i))
  cnt_after =
      sym later.same_cnt ∙ changed_item.1 ∙ ap (next_cnt hdr.max_ver_num) (sym before.same_cnt)

  cnt_pos : 0 < val_cnt ctx.mem (current ctx i)
  cnt_pos = (s.table.items i has.inside).cnt_some

  some_after : 1 ≤ val_cnt changed.mem (item_at changed.store_hdr base i)
  some_after = ground (arith, changed_item.1, s.room.versions)

  older_after :
      (v : ℕ)
      → 0 < v
      → v + 1 ≤ val_cnt new_ctx.mem (current new_ctx i)
      → SameStr
          (item_value hdr ctx.mem (current ctx i) v)
          (item_value new_ctx.store_hdr new_ctx.mem (current new_ctx i) (v + 1))
  older_after v p q =
      let bound : v ≤ val_cnt ctx.mem (current ctx i) =
        ground (arith, cnt_after, (s.table.items i has.inside).cnt_max) in
      SameStr-trans _ _ _ (before.same_value v p bound) (
        SameStr-trans _ _ _ (changed_item.3 v p (omega (arith, later.same_cnt, changed_item.1)))
          (later.same_value (v + 1) (omega arith) (omega (arith, later.same_cnt))))

  pub new-IsReplaced : IsReplaced ctx new_ctx value i
  new-IsReplaced = record {
    store = record {
      room = rw new_sizes.4 (new-HasRoom n s.room);
      table = rw new_sizes.4 new-IsTable;
    };
    used = new_sizes.4;
    others = λ j l ne.
        SameItem-trans _ _ _ _ _ _ _ _ _ (snap_item j l)
          (SameItem-trans _ _ _ _ _ _ _ _ _ (changed_other j l ne) (new_items j l));
    same_key =
        SameStr-trans _ _ _ before.same_key (SameStr-trans _ _ _ changed_item.0 later.same_key);
    counted = cnt_after;
    newest =
        SameStr-trans _ _ _ (SameStr-sym _ _ (later.same_value 1 (omega arith) some_after))
          changed_item.2;
    older = older_after;
    stale = stale_items;
    left_behind = rw stale_items old_items;
    left_table = rw (new_sizes.4, stale_items) old-IsTable;
  }

  new_item_size : new_ctx.store_hdr.item_section.size ≡ hdr.item_section.size
  unfolding switch_items make_snapshot replace_value link_value
  new_item_size = refl

  pub new-IsFilled : IsFilled ctx new_ctx value
  new-IsFilled = record {
    room = new-HasRoom;
    item_size = new_item_size;
    key_used = new_sizes.0;
    key_size = new_sizes.1;
    value_used = new_sizes.3;
    value_size = new_sizes.2;
  }

  -- `pupa_store_set` of a key that is there, with a value that fits: it returns what the sync
  -- reports, and the store has a new version of that item.
  pub set_old_lem :
      (env : Env)
      → (ctx' : Ctx) × IsReplaced ctx ctx' value i
        × IsFilled ctx ctx' value
        × (pupa_store_set env ctx key value ≡ some (sync_status env, ctx'))
  set_old_lem env = (
    new_ctx,
    new-IsReplaced,
    new-IsFilled,
    reached env ∙ ap (finish_old env) replaced_ok ∙ finished env,
  )
