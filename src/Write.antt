-- ===== src/Write.antt =====
-- The writes of src/pupa_store.c: `pupa_store_set` and `pupa_store_del`, with the snapshot, the
-- addition of an item and the replacement of its value.
pub mod Strings
pub mod Add
pub mod Shift
use pupa.Common.{
  ℕ, ◌+◌, ◌-◌, ◌*◌, ◌/◌, Option, none, some, ltb, ◌==◌, if◌then◌else◌, ltℤ, pos, int32,
}
use pupa.Memory.{Mem, put, copy}
use pupa.Layout.{
  Header, sizeof_item, sizeof_item_val, snapshot_id, offset, snapshot_offset, free_offset, item_len,
}
use pupa.Item.{
  Str, key_len, val_cnt, value_len, set_key_offset, set_key_len, set_val_cnt, set_value_offset,
  set_value_len,
}
use pupa.Context.{Status, ok, error, overflow, not_found, Ctx, Env}
use pupa.Read.{find_item}
use pupa.Compaction.{Compacted, pupa_store_key_compaction, pupa_store_value_compaction}
use pupa.Sort.{pupa_sort}

-- `pupa_store_item_make_snapshot`
unfoldable pub make_snapshot : Ctx → Ctx
unfolding copy snapshot_offset item_len
make_snapshot ctx =
    let hdr = ctx.store_hdr in
    let items = snapshot_offset hdr.item_section in
    let copied = copy ctx.mem items ctx.store_items (item_len hdr * hdr.item_section.used) in
    record ctx {
      mem = if hdr.item_section.used == 0 then ctx.mem else copied;
      store_items_snapshot = items;
    }

-- Room for a string: `p`, `offset` and the context, or the status that the caller returns.
pub data Room : Type 0 where
  refused : Status → Ctx → Room
  room : (p offset : ℕ) → Ctx → Room

abbrev pub compacted_room : Compacted → ℕ → Room
compacted_room c offset = elim c.status [
  | ok ↦ room c.address offset c.ctx
  | error ↦ refused error c.ctx
  | overflow ↦ refused overflow c.ctx
  | other ↦ refused other c.ctx
]

-- The test of the key section in `pupa_store_item_add`, and what follows from it.
unfoldable pub key_room : Ctx → Str → Room
unfolding pupa_store_key_compaction snapshot_offset free_offset offset
key_room ctx key =
    let s = ctx.store_hdr.key_section in
    let compacted = compacted_room (pupa_store_key_compaction ctx key) (snapshot_offset s) in
    if ltb s.size (s.used + (key.len + 1)) then compacted else room (free_offset s) (offset s) ctx

-- The same test of the value section, in `pupa_store_item_add` and `pupa_store_item_replace`.
unfoldable pub value_room : Ctx → Str → Room
unfolding pupa_store_value_compaction snapshot_offset free_offset offset
value_room ctx value =
    let s = ctx.store_hdr.value_section in
    let compacted = compacted_room (pupa_store_value_compaction ctx value) (snapshot_offset s) in
    if ltb s.size (s.used + (value.len + 1)) then compacted else room (free_offset s) (offset s) ctx

-- `memcpy(p, data, len); p += len; *p = '\0';`
unfoldable pub write_str : Mem → ℕ → Str → Mem
unfolding put
write_str m p s = put (put m p s.bytes s.len) (p + s.len) (λ _. 0) 1

-- The key part of `pupa_store_item_add`, once there is room.
unfoldable pub write_key : Ctx → (item p offset : ℕ) → Str → Ctx
unfolding set_key_len set_key_offset write_str key_len
write_key ctx item p offset key =
    let hdr = ctx.store_hdr in
    let s = hdr.key_section in
    let linked = set_key_offset (set_key_len ctx.mem item (key.len + 1)) item (offset + s.used) in
    let m = write_str linked p key in
    record ctx {
      store_hdr = record hdr { key_section = record s { used = s.used + key_len m item } };
      mem = m;
    }

-- The value record at `val` is pointed at the free end of the value section, which moves on:
-- `value_offset = ...; value_len = ...; used += value_len`.
unfoldable pub link_value : Ctx → (val offset : ℕ) → Str → Ctx
unfolding set_value_offset set_value_len value_len
link_value ctx val offset value =
    let hdr = ctx.store_hdr in
    let s = hdr.value_section in
    let m = set_value_len (set_value_offset ctx.mem val (offset + s.used)) val (value.len + 1) in
    record ctx {
      store_hdr = record hdr { value_section = record s { used = s.used + value_len m val } };
      mem = m;
    }

abbrev pub last_value : Ctx → ℕ → ℕ
last_value ctx item = item + sizeof_item + (ctx.store_hdr.max_ver_num - 1) * sizeof_item_val

-- The value part of `pupa_store_item_add`, once there is room.
unfoldable pub add_value : Ctx → (item p offset : ℕ) → Str → Ctx
unfolding link_value write_str set_val_cnt
add_value ctx item p offset value =
    let written = record ctx { mem = write_str ctx.mem p value } in
    let linked = link_value written (last_value ctx item) offset value in
    record linked { mem = set_val_cnt linked.mem item 1 }

unfoldable pub finish_add : ℕ → Str → Room → Status × Ctx
unfolding add_value
finish_add item value (refused status ctx) = (status, ctx)
finish_add item value (room p offset ctx) = (ok, add_value ctx item p offset value)

unfoldable pub continue_add : ℕ → Str → Str → Room → Status × Ctx
unfolding finish_add value_room write_key
continue_add item key value (refused status ctx) = (status, ctx)
continue_add item key value (room p offset ctx) =
    let with_key = write_key ctx item p offset key in
    finish_add item value (value_room with_key value)

unfoldable pub pupa_store_item_add : Ctx → ℕ → Str → Str → Status × Ctx
unfolding continue_add key_room
pupa_store_item_add ctx item key value =
    let s = ctx.store_hdr.item_section in
    let added = continue_add item key value (key_room ctx key) in
    if s.used == s.size then (overflow, ctx) else added

-- The shift of the older values in `pupa_store_item_replace`: the memory, with the new `val_cnt`
-- in it, and the address of the record that takes the new value.
unfoldable pub shift_values : Mem → (max_ver_num item : ℕ) → Mem × ℕ
unfolding copy val_cnt set_val_cnt
shift_values m max_ver_num item =
    let vals = item + sizeof_item in
    let cnt = val_cnt m item in
    let evicted = copy m vals (vals + sizeof_item_val) ((cnt - 1) * sizeof_item_val) in
    let shifted =
      copy m (vals + (max_ver_num - cnt - 1) * sizeof_item_val)
        (vals + (max_ver_num - cnt) * sizeof_item_val) (cnt * sizeof_item_val) in
    if max_ver_num == 1
    then (m, vals)
    else if ltℤ (int32 cnt) (pos max_ver_num)
    then (set_val_cnt shifted item (cnt + 1), vals + (max_ver_num - 1) * sizeof_item_val)
    else (evicted, vals + (cnt - 1) * sizeof_item_val)

unfoldable pub replace_value : Ctx → (item p offset : ℕ) → Str → Ctx
unfolding link_value write_str shift_values
replace_value ctx item p offset value =
    let (m, val) = shift_values (write_str ctx.mem p value) ctx.store_hdr.max_ver_num item in
    link_value (record ctx { mem = m }) val offset value

unfoldable pub finish_replace : ℕ → Str → Room → Status × Ctx
unfolding replace_value
finish_replace item value (refused status ctx) = (status, ctx)
finish_replace item value (room p offset ctx) = (ok, replace_value ctx item p offset value)

unfoldable pub pupa_store_item_replace : Ctx → ℕ → Str → Status × Ctx
unfolding finish_replace value_room
pupa_store_item_replace ctx item value = finish_replace item value (value_room ctx value)

-- `p_item_section->id = PUPA_STORE_GET_SEC_SNAPSHOT_ID(...)` with the new `used`
unfoldable pub switch_items : Ctx → ℕ → Ctx
unfolding snapshot_id
switch_items ctx used =
    let hdr = ctx.store_hdr in
    let s = hdr.item_section in
    record ctx {
      store_hdr = record hdr { item_section = record s { id = snapshot_id s; used = used } };
    }

-- The end of a write: `pupa_shm_sync`, which fails if `msync` does.
abbrev pub sync_status : Env → Status
sync_status env = if env.synced then ok else error

-- `p_item_section->used++`
unfoldable pub count_item : Ctx → Ctx
count_item ctx =
    let hdr = ctx.store_hdr in
    let s = hdr.item_section in
    record ctx { store_hdr = record hdr { item_section = record s { used = s.used + 1 } } }

-- The end of `pupa_store_set` for a new key, once the snapshot is sorted. `none`: the sort left the
-- array.
unfoldable pub finish_sort : Env → Ctx → Option Mem → Option (Status × Ctx)
finish_sort env ctx none = none
finish_sort env ctx (some m) =
    let sorted = record ctx { mem = m; store_items = ctx.store_items_snapshot } in
    some (sync_status env, switch_items sorted ctx.store_hdr.item_section.used)

-- The sort of the counted items in the snapshot, and what follows it.
unfoldable pub sort_counted : Env → Ctx → Option (Status × Ctx)
sort_counted env ctx = finish_sort env ctx (
    pupa_sort ctx.mem env.allocated ctx.store_items_snapshot ctx.store_hdr.item_section.used
      (item_len ctx.store_hdr))

-- `pupa_store_set` for a key that is not there, after `pupa_store_item_add`: the item is counted before
-- the items are sorted and the section is switched.
unfoldable pub finish_new : Env → Status × Ctx → Option (Status × Ctx)
unfolding count_item
finish_new env (ok, ctx) = sort_counted env (count_item ctx)
finish_new env (status, ctx) = some (status, ctx)

-- `pupa_store_set` for a key that is there, after `pupa_store_item_replace`.
unfoldable pub finish_old : Env → Status × Ctx → Option (Status × Ctx)
unfolding switch_items
finish_old env (ok, ctx) = some (sync_status env, switch_items ctx ctx.store_hdr.item_section.used)
finish_old env (status, ctx) = some (status, ctx)

unfoldable pub set_found : Env → Ctx → Str → Str → Option ℕ → Option (Status × Ctx)
unfolding finish_old pupa_store_item_add pupa_store_item_replace item_len
set_found env ctx key value none =
    let item =
      ctx.store_items_snapshot + ctx.store_hdr.item_section.used * item_len ctx.store_hdr in
    finish_new env (pupa_store_item_add ctx item key value)
set_found env ctx key value (some item) = finish_old env (pupa_store_item_replace ctx item value)

unfoldable pub pupa_store_set : Env → Ctx → Str → Str → Option (Status × Ctx)
unfolding make_snapshot find_item set_found
pupa_store_set env ctx key value =
    let ctx' = make_snapshot ctx in
    set_found env ctx' key value (find_item ctx' ctx'.store_items_snapshot key)

-- The memory after the `memcpy` of `pupa_store_del` for the item at `item`. The difference of the
-- two item pointers counts units of `sizeof(pupa_store_item_t)`.
unfoldable pub close_gap : Mem → Header → (items item : ℕ) → Mem
unfolding copy item_len
close_gap m hdr items item =
    let used = hdr.item_section.used in
    let index = (item - items) / sizeof_item in
    let moved = copy m item (item + sizeof_item) (item_len hdr * (used - index + 1)) in
    if ltb (index + 1) used then moved else m

unfoldable pub del_found : Env → Ctx → Option ℕ → Status × Ctx
unfolding close_gap switch_items
del_found env ctx none = (not_found, ctx)
del_found env ctx (some item) =
    let m = close_gap ctx.mem ctx.store_hdr ctx.store_items_snapshot item in
    (sync_status env, switch_items (record ctx { mem = m }) (ctx.store_hdr.item_section.used - 1))

unfoldable pub pupa_store_del : Env → Ctx → Str → Status × Ctx
unfolding make_snapshot find_item del_found
pupa_store_del env ctx key =
    let ctx' = make_snapshot ctx in
    del_found env ctx' (find_item ctx' ctx'.store_items_snapshot key)
