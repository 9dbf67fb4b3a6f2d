-- ===== src/Layout.antt =====
-- src/pupa_store.h and `pupa_store_init` of src/pupa_store.c: the sections of the file and the
-- header that records them.
--
-- A section is one of three pairs of equal areas (items, keys, values). `id` says which area of the
-- pair is read; the other is its snapshot.
pub mod Bounds
pub mod Switch
use pupa.Common.{ℕ, ◌+◌, ◌-◌, ◌*◌, ◌%◌, ◌^◌, ltb, ◌==◌, if◌then◌else◌}

-- `pupa_store_section_t`
pub record Section : Type 0 where
  pub id : ℕ
  pub size : ℕ
  pub used : ℕ
  pub sec1_offset : ℕ
  pub sec2_offset : ℕ

-- `pupa_store_hdr_t`
pub record Header : Type 0 where
  pub max_ver_num : ℕ
  pub item_section : Section
  pub key_section : Section
  pub value_section : Section

abbrev pub section_one : ℕ
section_one = 1

abbrev pub section_two : ℕ
section_two = 2

abbrev pub key_average_len : ℕ
key_average_len = 64

abbrev pub value_average_len : ℕ
value_average_len = 256

-- `sizeof(pupa_store_hdr_t)`, `sizeof(pupa_store_item_t)` and `sizeof(pupa_store_item_val_t)` on a
-- machine with 8-byte `size_t`.
abbrev pub sizeof_hdr : ℕ
sizeof_hdr = 128

abbrev pub sizeof_item : ℕ
sizeof_item = 16

abbrev pub sizeof_item_val : ℕ
sizeof_item_val = 16

-- PUPA_STORE_GET_SEC_SNAPSHOT_ID
unfoldable pub snapshot_id : Section → ℕ
snapshot_id s = if s.id == section_one then section_two else section_one

-- PUPA_STORE_GET_OFFSET, and PUPA_STORE_GET_ADDR as an offset from `store_hdr`
unfoldable pub offset : Section → ℕ
offset s = if s.id == section_one then s.sec1_offset else s.sec2_offset

-- PUPA_STORE_GET_SNAPSHOT_OFFSET, and PUPA_STORE_GET_SNAPSHOT_ADDR as an offset from `store_hdr`
unfoldable pub snapshot_offset : Section → ℕ
snapshot_offset s = if s.id == section_one then s.sec2_offset else s.sec1_offset

-- PUPA_STORE_GET_FREE_ADDR, as an offset from `store_hdr`
unfoldable pub free_offset : Section → ℕ
free_offset s = if s.id == section_one then s.sec1_offset + s.used else s.sec2_offset + s.used

-- The bytes of one item with its values: `item_len` of every function of pupa_store.c
unfoldable pub item_len : Header → ℕ
item_len h = sizeof_item + h.max_ver_num * sizeof_item_val

-- What assigning a `size_t` to the `int32_t offset` of `pupa_store_init` keeps, as a bit pattern.
abbrev pub to_int32 : ℕ → ℕ
to_int32 x = x % 2 ^ 32

-- The `size_t` that an `int32_t` with this bit pattern converts to.
abbrev pub to_size : ℕ → ℕ
to_size x = if ltb x (2 ^ 31) then x else x + (2 ^ 64 - 2 ^ 32)

-- `offset += n`, with the sum formed as a `size_t`
unfoldable pub advance : ℕ → ℕ → ℕ
advance x n = to_int32 ((to_size x + n) % 2 ^ 64)

-- The part of `pupa_store_init` that lays out one section: its record and the `offset` behind it.
unfoldable pub init_section : ℕ → ℕ → ℕ → Section
unfolding advance
init_section x size bytes = record {
  id = section_one;
  size = size;
  used = 0;
  sec1_offset = to_size x;
  sec2_offset = to_size (advance x bytes);
}

unfoldable pub behind : ℕ → ℕ → ℕ
unfolding advance
behind x bytes = advance (advance x bytes) bytes

-- The bytes that `pupa_store_init` reserves for one item area.
unfoldable pub item_area : ℕ → ℕ → ℕ
item_area key_count max_ver_num = key_count * sizeof_item + max_ver_num * sizeof_item_val

-- The header, and the total size as the bit pattern of the returned `int32_t`. The arguments are not
-- negative, and the `int` products with `key_count` are taken without an overflow, which C leaves
-- undefined.
unfoldable pub pupa_store_init : ℕ → ℕ → Header × ℕ
unfolding item_area init_section behind
pupa_store_init key_count max_ver_num =
    let items = item_area key_count max_ver_num in
    let keys = key_count * key_average_len in
    let values = key_count * value_average_len in
    let key_start = behind sizeof_hdr items in
    let value_start = behind key_start keys in
    (
      record {
        max_ver_num = max_ver_num;
        item_section = init_section sizeof_hdr key_count items;
        key_section = init_section key_start (key_average_len * key_count) keys;
        value_section = init_section value_start (value_average_len * key_count) values;
      },
      behind value_start values,
    )
