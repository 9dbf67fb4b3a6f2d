-- ===== src/Compaction.antt =====
-- `pupa_store_value_compaction` and `pupa_store_key_compaction` of src/pupa_store.c, with the
-- pointer arithmetic of the source: `store_items_snapshot[i]` advances by `sizeof(pupa_store_item_t)`,
-- and so does each unit that is added to `p_store_item`.
use pupa.Common.{ℕ, zero, suc, ◌+◌, ◌*◌, ltb, if◌then◌else◌, int32}
use pupa.Memory.{Mem, copy}
use pupa.Layout.{sizeof_item, sizeof_item_val, snapshot_id, snapshot_offset}
use pupa.Item.{
  Str, key_offset, key_len, val_cnt, value_offset, value_len, set_key_offset, set_value_offset,
}
use pupa.Context.{Status, ok, overflow, Ctx}
use pupa.Read.{rounds_of}

-- The memory and `used_size` of a compaction under way.
pub record Progress : Type 0 where
  pub mem : Mem
  pub used_size : ℕ

-- What a compaction reports: its status, the context, and `*address`.
pub record Compacted : Type 0 where
  pub status : Status
  pub ctx : Ctx
  pub address : ℕ

-- The body of the key loop for the item at `item`; `area` is the snapshot area.
unfoldable pub move_key : ℕ → ℕ → Progress → Progress
unfolding copy key_offset key_len set_key_offset
move_key area item p =
    let len = key_len p.mem item in
    let copied = copy p.mem (area + p.used_size) (key_offset p.mem item) len in
    record {
      mem = set_key_offset copied item (area + p.used_size);
      used_size = p.used_size + key_len copied item;
    }

-- `for (i = 0; i < used; i++)`, from the item at `item` on.
unfoldable pub move_keys : ℕ → (rounds item : ℕ) → Progress → Progress
unfolding move_key
move_keys area zero item p = p
move_keys area (suc rounds) item p =
    move_keys area rounds (item + sizeof_item) (move_key area item p)

unfoldable pub pupa_store_key_compaction : Ctx → Str → Compacted
unfolding move_keys snapshot_offset snapshot_id
pupa_store_key_compaction ctx key =
    let hdr = ctx.store_hdr in
    let area = snapshot_offset hdr.key_section in
    let start : Progress = record { mem = ctx.mem; used_size = 0 } in
    let done = move_keys area hdr.item_section.used ctx.store_items_snapshot start in
    let moved = record ctx { mem = done.mem } in
    let section = record (hdr.key_section) {
      used = done.used_size;
      id = snapshot_id hdr.key_section;
    } in
    if ltb hdr.key_section.size (key.len + 1 + done.used_size)
    then record { status = overflow; ctx = moved; address = 0 }
    else record {
      status = ok;
      ctx = record moved { store_hdr = record hdr { key_section = section } };
      address = area;
    }

-- `p_store_item + sizeof(pupa_store_item_t) + j * sizeof(pupa_store_item_val_t)` on a
-- `pupa_store_item_t *`
unfoldable pub compaction_value : ℕ → ℕ → ℕ
compaction_value item j = item + (sizeof_item + j * sizeof_item_val) * sizeof_item

unfoldable pub move_value : ℕ → ℕ → Progress → Progress
unfolding copy value_offset value_len set_value_offset
move_value area val p =
    let len = value_len p.mem val in
    let copied = copy p.mem (area + p.used_size) (value_offset p.mem val) len in
    record {
      mem = set_value_offset copied val (area + p.used_size);
      used_size = p.used_size + value_len copied val;
    }

-- `for (j = 0; j < val_cnt; j++)`, from `j` on. The loop writes behind the item only, so that
-- `val_cnt` stays as it is.
unfoldable pub move_values : ℕ → ℕ → (rounds j : ℕ) → Progress → Progress
unfolding move_value compaction_value
move_values area item zero j p = p
move_values area item (suc rounds) j p =
    move_values area item rounds (suc j) (move_value area (compaction_value item j) p)

unfoldable pub move_items : ℕ → (rounds item : ℕ) → Progress → Progress
unfolding move_values val_cnt rounds_of
move_items area zero item p = p
move_items area (suc rounds) item p =
    move_items area rounds (item + sizeof_item)
      (move_values area item (rounds_of (int32 (val_cnt p.mem item))) 0 p)

unfoldable pub pupa_store_value_compaction : Ctx → Str → Compacted
unfolding move_items snapshot_offset snapshot_id
pupa_store_value_compaction ctx value =
    let hdr = ctx.store_hdr in
    let area = snapshot_offset hdr.value_section in
    let start : Progress = record { mem = ctx.mem; used_size = 0 } in
    let done = move_items area hdr.item_section.used ctx.store_items_snapshot start in
    let moved = record ctx { mem = done.mem } in
    let section = record (hdr.value_section) {
      used = done.used_size;
      id = snapshot_id hdr.value_section;
    } in
    if ltb hdr.value_section.size (value.len + 1 + done.used_size)
    then record { status = overflow; ctx = moved; address = 0 }
    else record {
      status = ok;
      ctx = record moved { store_hdr = record hdr { value_section = section } };
      address = area + done.used_size;
    }
