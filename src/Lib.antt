-- ===== src/Lib.antt =====
-- pupa keeps key-value pairs with their history in a file that several processes map into memory:
-- one writes, the others look keys up without locks.
--
-- The file starts with a header, and three sections follow it: the items (fixed-size records in the
-- order of their keys, each with the records of its values), the bytes of the keys, and the bytes of
-- the values. Every section has two areas of the same size, and an `id` says which of them is
-- current. A write copies the items into the other area, the snapshot, changes it there, appends the
-- key and the value behind the used part of their areas, and then switches the item section.
--
-- Modules:
--   Memory      the mapping as a function from addresses to bytes, an address being an offset from
--               `ctx->store_hdr`; little-endian fields; memcpy and memmove.
--   Layout      src/pupa_store.h (sections, macros) and `pupa_store_init` of src/pupa_store.c.
--   Item        `pupa_store_item_t`, `pupa_store_item_val_t`, `_pupa_store_item_compare`.
--   Sort        `pupa_bsearch` and `pupa_sort`.
--   Context     `pupa_ctx_t`, the return codes, and `bsearch` of the C library; Lookup is about it.
--   Read        `pupa_store_get`, `pupa_store_get_values`.
--   Compaction  `pupa_store_key_compaction`, `pupa_store_value_compaction`.
--   Write       `pupa_store_item_make_snapshot`, `pupa_store_item_add`, `pupa_store_item_replace`,
--               `pupa_store_set`, `pupa_store_del`.
--   Store       when the bytes are a store (`IsStore`), and what the operations do to one.
--   Shm         src/pupa_shm.c, with what the system calls report as an input.
--   Api         src/pupa.c: `pupa_init`, the wrappers over the store, `pupa_fini`.
--   Dict        what a store promises without its layout: a dictionary of the versions of each key,
--               and the runs of a client.
--   Stats       `pupa_stats`, `pupa_store_stats`, `pupa_store_dump`.
--   CommandLine what the programs use of the C library: strings, "%.*s", `atoi` and `getopt`.
--   Tool        src/tools/pupa_tool.c: the parser, the commands and `main`, with what they print.
--   Sdk         the bindings: sdk/lua/pupa_lua.c, sdk/java/pupa_java.c and sdk/php/pupa_php.c.
--   Tests       a store of up to three items, and every result at one input.
-- A definition has the name of the C function that it models, or of the part of it that its comment
-- names. `Store.IsStore` is the invariant: the areas lie apart, the items are in order and no key
-- stands twice, and each item points into the used parts of the key and value areas.
-- `Store.IsFresh` says that `ctx->store_items` points at the current area.
-- In the statements a store is fresh if it is so, a key is a string of fewer than 2 ^ 31 - 1 bytes
-- with a '\0' behind it (`Store.Find.IsKey`), a key or a value fits without a compaction if the free
-- part of its current area takes it with its '\0' and, for a key, the item section is not full
-- (`Store.Added.Fits`, `Store.Replaced.FitsValue`), and there is room for one more item if neither
-- item area then reaches into the other or into the keys (`Store.HasRoom`).
--
-- Choices and bounds:
--   * Lengths of keys and values are natural numbers, so that a negative `len` is left out; what the
--     code stores into 32 bits is bounded by 2 ^ 31 in the statements, and `offset` of
--     `pupa_store_init` keeps its wrap-around.
--   * `key_count` and `max_ver_num` are natural numbers, so that a negative one is left out, and the
--     `int` products `64 * key_count` and `256 * key_count` of `pupa_store_init` are taken without the
--     overflow, which C leaves undefined and which a file smaller than 2 ^ 31 bytes excludes.
--   * `store_hdr` is a record of its own, beside the bytes of the mapping: what a read or a write at
--     an address below 128, that of the header's bytes, does is left out. The binding's
--     `Sdk.value_string` and a lookup of version 0 behind the last item can name such an address.
--   * The caller's strings are bytes outside the mapping: a key inside the mapping, and the special
--     case `key_offset == 0` in a lookup, are left out.
--   * memcpy of overlapping blocks, which C leaves undefined, is taken to behave as memmove.
--   * A `size_t` sum does not wrap around in the writes: `Store.HasRoom` bounds the file.
--   * `pupa_bsearch` runs on fuel, `count + 1`, and `bsearch` on fuel, the number of elements; both
--     halve the range, and the search lemmas show that the fuel is not used up. `mid - 1` with `mid`
--     0 wraps around, and the code goes on outside the array; the model stops there (`escapes`,
--     `none`).
--   * `malloc` in the sort and `msync` are inputs (`Context.Env`).
--   * In the tool a negative count of `-n` and a number beyond `int` are left out, `getopt` passes over
--     words that are no options, as that of glibc does, and its own messages are left out.
--   * A write is one step. For `pupa_store_set` the bytes that another process finds in between are in
--     `Store.Moments` (a present key) and `Store.Adding` (a new key, until it is counted), and
--     `Store.Window` is about the moment after the count, before the sort and the switch, where a
--     lookup gives `bsearch` an array that is not in order, for which C promises nothing; the stores
--     take effect in the order of the program, and a lookup happens at one moment.
--
-- Not modelled: the path and the file descriptor in src/pupa_shm.c, src/benchmark (it measures the
-- time of random calls), sdk/go and the Java class (other languages), and what registers the bindings
-- with their hosts. The statements on the writes are about writes that need no compaction.
pub mod Common
pub mod Memory
pub mod Layout
pub mod Item
pub mod Sort
pub mod Context
pub mod Read
pub mod Compaction
pub mod Write
mod Tests
pub mod Lookup
pub mod Store
pub mod Shm
pub mod Api
pub mod Dict
pub mod Stats
pub mod CommandLine
pub mod Tool
pub mod Sdk
