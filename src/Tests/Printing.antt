-- ===== src/Tests/Printing.antt =====
-- What is printed about the store of two items, and of three.
use pupa.Common.{ℕ, ◌+◌, ◌≤◌, ◌≡◌, List, some, arith, length, get_elem?}
use pupa.Layout.{Section}
use pupa.Store.{item_at}
use pupa.Stats.{pupa_store_stats, pupa_store_dump}
use pupa.Stats.Bounds.{IsSection, stats_fit}
use pupa.Stats.Dump.{dump_skips}
use pupa.Tests.Fixture.{hdr, hdr_of, two, three}

items-IsSection : IsSection hdr.item_section
items-IsSection = record {
  id = omega arith;
  size = omega arith;
  used = omega arith;
  sec1_offset = omega arith;
  sec2_offset = omega arith;
}

keys-IsSection : IsSection hdr.key_section
keys-IsSection = record {
  id = omega arith;
  size = omega arith;
  used = omega arith;
  sec1_offset = omega arith;
  sec2_offset = omega arith;
}

values-IsSection : IsSection hdr.value_section
values-IsSection = record {
  id = omega arith;
  size = omega arith;
  used = omega arith;
  sec1_offset = omega arith;
  sec2_offset = omega arith;
}

stats_fit_example : length (pupa_store_stats two).1 + 1 ≤ 1024
stats_fit_example = stats_fit two items-IsSection keys-IsSection values-IsSection

-- The third of three items that are printed has the number 3.
dump_skips_example :
    (vs : List ℕ) × (get_elem? (pupa_store_dump three).0 2 ≡ some (item_at (hdr_of 3) 128 3, vs))
unfolding pupa.Layout.offset
dump_skips_example = dump_skips three 2 (omega arith)
