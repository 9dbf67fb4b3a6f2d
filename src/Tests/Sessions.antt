-- ===== src/Tests/Sessions.antt =====
-- The properties of the interface, with a new file for 10 keys.
use pupa.Common.{
  ℕ, ◌+◌, ◌<◌, ◌≡◌, ◌↔◌, List, length, get_elem?, refl, true, false, arith, some, pos,
}
use pupa.Layout.Bounds.{file_size}
use pupa.Item.{View, key_offset, key_len, val_cnt}
use pupa.Item.Order.{SameStr}
use pupa.Context.{ok}
use pupa.Read.{refresh}
use pupa.Write.Strings.{terminated}
use pupa.Store.{HasRoom, IsStore, IsFresh}
use pupa.Store.Get.{text, current}
use pupa.Shm.{Os, op_type_rw}
use pupa.Api.{Pupa, Start, pupa_init, pupa_set, pupa_get, pupa_get_by_ver, pupa_get_all_ver}
use pupa.Api.Calls.{looked_up, get_next_key, get_all_by_ver}
use pupa.Api.Init.{Opens, init_ok_iff}
use pupa.Api.Session.{IsNew, init_new_file, first_set_get}
use pupa.Tests.Fixture.{hdr, two, fine, two-IsStore}
use pupa.Tests.Keys.{key_a, value_c, IsKey-a, HasKey-a}

abbrev os : Os
os = record {
  opened = true;
  stated = true;
  st_size = 0;
  truncated = true;
  mapped = true;
  unmapped = true;
}

abbrev start : Start
start = record { os = os; file_hdr = hdr; file_mem = λ _. 0; local_hdr = hdr }

abbrev idle : Pupa
idle = record {
  init = false;
  shm = record { mapping = false; size = 0; exists = false };
  ctx = two;
}

abbrev ready : Pupa
ready = record idle { init = true }

os-IsNew : IsNew os
os-IsNew = record { opened = refl; stated = refl; empty = refl; truncated = refl; mapped = refl }

init_ok_iff_example :
    ((pupa_init start 10 op_type_rw idle).0 ≡ ok) ↔ ((idle.init ≡ false) × Opens os op_type_rw)
init_ok_iff_example = init_ok_iff start 10 op_type_rw idle

init_new_file_example :
    (pupa' : Pupa) × (pupa_init start 10 op_type_rw idle ≡ (ok, pupa'))
    × (pupa'.init ≡ true)
    × (pupa'.shm.size ≡ file_size 10 3)
    × (pupa'.ctx.store_hdr.item_section.used ≡ 0)
    × IsStore pupa'.ctx
    × IsFresh pupa'.ctx
    × HasRoom pupa'.ctx.store_hdr 3
init_new_file_example = init_new_file 10 (omega arith) start idle refl os-IsNew 3 (omega arith)

first_set_get_example :
    (pupa' pupa'' : Pupa) × (w : View) × (pupa_init start 10 op_type_rw idle ≡ (ok, pupa'))
    × (pupa_set fine pupa' key_a value_c ≡ some (ok, pupa''))
    × (pupa_get_by_ver pupa'' key_a (pos 1)
        ≡ (ok, some w, record pupa'' { ctx = refresh pupa''.ctx }))
    × SameStr (text pupa''.ctx.mem w) (terminated value_c)
first_set_get_example =
    first_set_get 10 (omega arith) start idle refl os-IsNew key_a value_c IsKey-a (omega arith)
      (omega arith) (omega arith) fine refl

two_open : IsStore ready.ctx
two_open = two-IsStore

get_next_key_example :
    (w : View) × (pupa_get ready key_a ≡ (ok, some w, looked_up ready))
    × (w.offset ≡ key_offset two.mem (current two 1))
    × (w.len ≡ key_len two.mem (current two 1))
get_next_key_example = get_next_key ready two_open key_a IsKey-a 0 HasKey-a

get_all_by_ver_example :
    (vs : List View) × (pupa_get_all_ver ready key_a ≡ (ok, vs, looked_up ready))
    × (length vs ≡ val_cnt two.mem (current two 0))
    × ((v : ℕ)
        → v < length vs
        → (w : View) × (get_elem? vs v ≡ some w)
          × (pupa_get_by_ver ready key_a (pos (v + 1)) ≡ (ok, some w, looked_up ready)))
get_all_by_ver_example = get_all_by_ver ready two_open key_a IsKey-a 0 HasKey-a
