-- ===== src/Stats.antt =====
-- `pupa_store_stats` and `pupa_store_dump` of src/pupa_store.c, and `pupa_stats` of src/pupa.c.
pub mod Bounds
pub mod Dump
use Prim.Native.String.{String}
use pupa.Common.{ℕ, zero, suc, ◌+◌, ◌*◌, List, [], ◌∷◌, ◌++◌, int32}
use pupa.Common.Texts.{codes, decimal}
use pupa.Memory.{Mem}
use pupa.Layout.{Section, Header, item_len, sizeof_item, sizeof_item_val}
use pupa.Item.{val_cnt}
use pupa.Context.{Status, ok, Ctx}
use pupa.Read.{rounds_of}
use pupa.Api.{Pupa}

-- The lines of one section: its name, and what closes it.
unfoldable pub section_text : String → Section → String → List ℕ
unfolding decimal
section_text name s closing =
    codes "\t\""
    ++ codes name
    ++ codes "\" : {\n"
    ++ codes "\t\t\"size\": "
    ++ decimal s.size
    ++ codes ",\n"
    ++ codes "\t\t\"used\": "
    ++ decimal s.used
    ++ codes ",\n"
    ++ codes "\t\t\"id\": "
    ++ decimal s.id
    ++ codes ",\n"
    ++ codes "\t\t\"section-1\": "
    ++ decimal s.sec1_offset
    ++ codes ",\n"
    ++ codes "\t\t\"section-2\": "
    ++ decimal s.sec2_offset
    ++ codes ",\n"
    ++ codes closing

-- What `sprintf` writes into `buf`; its length is `stat->len`.
unfoldable pub stats_text : Header → List ℕ
stats_text h =
    codes "{\n"
    ++ section_text "item" h.item_section "\t},\n"
    ++ section_text "key" h.key_section "\t},\n"
    ++ section_text "value" h.value_section "\t}\n"
    ++ codes "}\n"

unfoldable pub pupa_store_stats : Ctx → Status × List ℕ
unfolding stats_text
pupa_store_stats ctx = (ok, stats_text ctx.store_hdr)

unfoldable pub pupa_stats : Pupa → Status × List ℕ
unfolding pupa_store_stats
pupa_stats pupa = pupa_store_stats pupa.ctx

-- The `p_item_value` that the inner loop of the dump prints.
unfoldable pub dump_values : (rounds val : ℕ) → List ℕ
dump_values zero val = []
dump_values (suc rounds) val = val ∷ dump_values rounds (val + sizeof_item_val)

-- The loop of the dump from `i` on, `p_item` being at `item`: each item that it prints, with the
-- values. `p_item = (char *) p_item + i * item_len` moves on from where it is.
unfoldable pub dump_items : Mem → (len rounds i item : ℕ) → List (ℕ × List ℕ)
unfolding dump_values val_cnt rounds_of
dump_items m len zero i item = []
dump_items m len (suc rounds) i item =
    let here = item + i * len in
    (here, dump_values (rounds_of (int32 (val_cnt m here))) (here + sizeof_item))
    ∷ dump_items m len rounds (suc i) here

-- What both loops print: the current items, and then the snapshot.
unfoldable pub pupa_store_dump : Ctx → List (ℕ × List ℕ) × List (ℕ × List ℕ)
unfolding dump_items item_len
pupa_store_dump ctx =
    let hdr = ctx.store_hdr in
    let used = hdr.item_section.used in
    (
      dump_items ctx.mem (item_len hdr) used 0 ctx.store_items,
      dump_items ctx.mem (item_len hdr) used 0 ctx.store_items_snapshot,
    )
