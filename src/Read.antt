-- ===== src/Read.antt =====
-- The lookups of src/pupa_store.c: `pupa_store_get` and `pupa_store_get_values`.
use pupa.Common.{
  ℕ, zero, suc, ◌+◌, ◌-◌, ◌*◌, Option, none, some, List, [], ◌∷◌, ◌==◌, if◌then◌else◌, ℤ, pos,
  negsuc, ltℤ, int32,
}
use pupa.Memory.{Mem}
use pupa.Layout.{item_len, offset, sizeof_item, sizeof_item_val}
use pupa.Item.{Str, View, pupa_store_item_compare, key_len, val_cnt, value_offset, value_len}
use pupa.Context.{Status, ok, error, not_found, not_found_value, exceed_maximum_num, Ctx, bsearch}

-- The `bsearch` call of the lookups and of the writes, over the item area at `base`.
unfoldable pub find_item : Ctx → ℕ → Str → Option ℕ
unfolding bsearch pupa_store_item_compare item_len
find_item ctx base key =
    let used = ctx.store_hdr.item_section.used in
    bsearch (pupa_store_item_compare ctx.mem key) base (item_len ctx.store_hdr) used 0 used

-- `ctx->store_items = PUPA_STORE_GET_ADDR(ctx->store_hdr, ctx->store_hdr->item_section)`
unfoldable pub refresh : Ctx → Ctx
unfolding offset
refresh ctx = record ctx { store_items = offset ctx.store_hdr.item_section }

-- The address of the value record that the code reaches from the item at `a` for `version`:
-- `p_item_val + max_ver_num - version`.
unfoldable pub version_address : ℕ → ℕ → ℤ → ℕ
version_address max_ver_num a (pos v) = a + sizeof_item + (max_ver_num - v) * sizeof_item_val
version_address max_ver_num a (negsuc v) = a + sizeof_item + (max_ver_num + suc v) * sizeof_item_val

-- The string that the value record at `a` describes.
unfoldable pub view_at : Mem → ℕ → View
unfolding value_offset value_len
view_at m a = record { len = value_len m a; offset = value_offset m a }

-- What `pupa_store_get` does with the result of `bsearch`.
unfoldable pub get_found : Mem → (max_ver_num : ℕ) → ℤ → Option ℕ → Status × Option View
unfolding version_address view_at key_len val_cnt
get_found m max_ver_num version none = (not_found, none)
get_found m max_ver_num version (some a) =
    if key_len m a == 0
    then (error, none)
    else if ltℤ (int32 (val_cnt m a)) version
    then (not_found_value, none)
    else (ok, some (view_at m (version_address max_ver_num a version)))

-- The status, what is stored into `*value`, and the context.
unfoldable pub pupa_store_get : Ctx → Str → ℤ → Status × Option View × Ctx
unfolding find_item get_found refresh
pupa_store_get ctx key version =
    let max_ver_num = ctx.store_hdr.max_ver_num in
    let ctx' = refresh ctx in
    let (status, value) =
      get_found ctx.mem max_ver_num version (find_item ctx' ctx'.store_items key) in
    if ltℤ (pos max_ver_num) version then (exceed_maximum_num, none, ctx) else (status, value, ctx')

-- The loop of `pupa_store_get_values`: the views that it stores into `values[0]`, `values[1]`, ...
-- in this order. `next` is the address of `p_item_val[i + 1]`.
unfoldable pub collect : Mem → (next rounds : ℕ) → List View
unfolding view_at
collect m next zero = []
collect m next (suc rounds) =
    view_at m (next - sizeof_item_val) ∷ collect m (next - sizeof_item_val) rounds

-- How often that loop runs: `i` starts at `max_ver_num - 1` and `max_ver_num - val_cnt <= i` holds.
unfoldable pub rounds_of : ℤ → ℕ
rounds_of (pos n) = n
rounds_of (negsuc n) = 0

unfoldable pub values_found : Mem → (max_ver_num : ℕ) → Option ℕ → Status × List View
unfolding collect rounds_of key_len val_cnt
values_found m max_ver_num none = (not_found, [])
values_found m max_ver_num (some a) = if key_len m a == 0 then (error, []) else (
  ok,
  collect m (a + sizeof_item + max_ver_num * sizeof_item_val) (rounds_of (int32 (val_cnt m a))),
)

unfoldable pub pupa_store_get_values : Ctx → Str → Status × List View × Ctx
unfolding find_item values_found refresh
pupa_store_get_values ctx key =
    let ctx' = refresh ctx in
    let (status, values) =
      values_found ctx.mem ctx.store_hdr.max_ver_num (find_item ctx' ctx'.store_items key) in
    (status, values, ctx')
