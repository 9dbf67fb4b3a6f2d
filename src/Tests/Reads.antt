-- ===== src/Tests/Reads.antt =====
-- The properties of the lookups at the store of two items.
use pupa.Common.{ℕ, ◌*◌, ◌+◌, ◌≤◌, ◌≡◌, some, arith, pos}
use pupa.Item.{value_offset, value_len, View, val_cnt}
use pupa.Context.{ok}
use pupa.Read.{pupa_store_get, refresh}
use pupa.Store.{values}
use pupa.Store.Get.{current, get_version}
use pupa.Tests.Fixture.{hdr, two, two-IsStore, cnt_a, cnt_b}
use pupa.Tests.Keys.{key_a, IsKey-a, HasKey-a}

pub cnt_first : val_cnt two.mem (current two 0) ≡ 2
unfolding pupa.Layout.offset pupa.Layout.item_len
cnt_first = cnt_a

pub cnt_second : val_cnt two.mem (current two 1) ≡ 1
unfolding pupa.Layout.offset pupa.Layout.item_len
cnt_second = cnt_b

get_version_example :
    (w : View) × (r : ℕ) × (pupa_store_get two key_a (pos 2) ≡ (ok, some w, refresh two))
    × (r + 16 * 2 ≡ current two 1)
    × (w.offset ≡ value_offset two.mem r)
    × (w.len ≡ value_len two.mem r)
    × (values hdr ≤ w.offset)
    × (w.offset + w.len ≤ values hdr + hdr.value_section.used)
get_version_example =
    get_version two two-IsStore key_a IsKey-a 2 0 HasKey-a (omega arith) (omega (arith, cnt_first))
