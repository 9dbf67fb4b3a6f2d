-- ===== src/Tests/Writes.antt =====
-- The properties of the writes at the store of two items.
use pupa.Common.{ℕ, ◌+◌, ◌<◌, ◌≡◌, refl, none, some, Ordering, arith, pos}
use pupa.Layout.{offset, item_len}
use pupa.Memory.{load}
use pupa.Item.{Str, key_offset, key_len, value_offset, value_len, val_cnt}
use pupa.Item.Order.{order, item_key}
use pupa.Context.{Ctx, ok, overflow, not_found}
use pupa.Read.{pupa_store_get, refresh}
use pupa.Write.{pupa_store_set, pupa_store_del}
use pupa.Write.Strings.{terminated}
use pupa.Store.Get.{current, LacksKey}
use pupa.Store.Added.{Fits}
use pupa.Store.Replaced.{FitsValue}
use pupa.Store.SetNew.{IsAdded}
use pupa.Store.Reading.{Reads, ReadsAlike}
use pupa.Store.SetGet.{
  set_new_greater, set_new_get, set_new_keeps, set_new_least, set_new_lost, set_old_get,
  set_old_older, set_old_keeps,
}
use pupa.Store.{IsStore, IsFresh}
use pupa.Store.Full.{set_full, del_absent}
use pupa.Store.DelGet.{del_greatest, del_keeps_the_key}
use pupa.Store.Del.{del_near}
use pupa.Tests.Fixture.{
  fine, hdr, hdr_of, two, two-IsStore, ctx-IsFresh, room, one, one-IsStore, three, three-IsStore,
  cnt_b,
}
use pupa.Tests.Keys.{
  key_least, IsKey-least, LacksKey-least, LacksKey-three, HasKey-c, least, key_a, key_b, key_c,
  IsKey-a, IsKey-b, IsKey-c, HasKey-a, HasKey-b, LacksKey-c, value_c,
}
use pupa.Tests.Reads.{cnt_first, cnt_second}

pub fits : (n : ℕ) → n < 3 → (key : Str) → key.len ≡ 1 → Fits (hdr_of n) key value_c
fits n l key e = record {
  item_free = λ x. absurd (omega arith);
  key_free = omega arith;
  value_free = omega arith;
  value_short = omega arith;
}

pub fits_value : FitsValue hdr value_c
fits_value = record { value_free = omega arith; value_short = omega arith }

pub c_above_a : order (terminated key_c) (item_key two.mem (current two 0)) ≡ Ordering.gt
unfolding offset item_len order key_len key_offset load
c_above_a = refl

set_new_greater_example :
    (ctx' : Ctx) × (r : ℕ) × IsAdded two ctx' key_c value_c r
    × (pupa_store_set fine two key_c value_c ≡ some (ok, ctx'))
set_new_greater_example =
    set_new_greater two two-IsStore (ctx-IsFresh 2) key_c value_c IsKey-c
      (fits 2 (omega arith) key_c refl) (room 2 3 (omega arith)) LacksKey-c fine refl 0
      (omega arith) c_above_a

set_new_get_example :
    (ctx' : Ctx) × (pupa_store_set fine two key_c value_c ≡ some (ok, ctx'))
    × Reads ctx' key_c value_c
set_new_get_example =
    set_new_get two two-IsStore (ctx-IsFresh 2) key_c value_c IsKey-c
      (fits 2 (omega arith) key_c refl) (room 2 3 (omega arith)) LacksKey-c fine refl 0
      (omega arith) c_above_a

set_new_keeps_example :
    (ctx' : Ctx) × (pupa_store_set fine two key_c value_c ≡ some (ok, ctx'))
    × ReadsAlike two ctx' key_a 2 2
set_new_keeps_example =
    set_new_keeps two two-IsStore (ctx-IsFresh 2) key_c value_c IsKey-c
      (fits 2 (omega arith) key_c refl) (room 2 3 (omega arith)) LacksKey-c fine refl 0
      (omega arith) c_above_a key_a IsKey-a 0 2 HasKey-a (omega arith) (omega (arith, cnt_first))

set_old_get_example :
    (ctx' : Ctx) × (pupa_store_set fine two key_a value_c ≡ some (ok, ctx'))
    × Reads ctx' key_a value_c
set_old_get_example =
    set_old_get two two-IsStore (ctx-IsFresh 2) key_a value_c IsKey-a fits_value 0 HasKey-a fine

set_old_older_example :
    (ctx' : Ctx) × (pupa_store_set fine two key_a value_c ≡ some (ok, ctx'))
    × ReadsAlike two ctx' key_a 2 3
set_old_older_example =
    set_old_older two two-IsStore (ctx-IsFresh 2) key_a value_c IsKey-a fits_value 0 HasKey-a fine 2
      (omega arith) (omega (arith, cnt_first)) (omega arith)

set_old_keeps_example :
    (ctx' : Ctx) × (pupa_store_set fine two key_a value_c ≡ some (ok, ctx'))
    × ReadsAlike two ctx' key_b 1 1
set_old_keeps_example =
    set_old_keeps two two-IsStore (ctx-IsFresh 2) key_a value_c IsKey-a fits_value 0 HasKey-a fine
      key_b IsKey-b 1 1 (λ e. absurd (omega arith)) (HasKey-b 2 (omega arith)) (omega arith)
      (omega (arith, cnt_second))

del_greatest_example :
    (ctx' : Ctx) × (pupa_store_del fine two key_b ≡ (ok, ctx'))
    × (ctx'.store_hdr.max_ver_num ≡ 3)
    × (pupa_store_get ctx' key_b (pos 1) ≡ (not_found, none, refresh ctx'))
del_greatest_example =
    del_greatest two two-IsStore (ctx-IsFresh 2) key_b IsKey-b 1 (HasKey-b 2 (omega arith)) fine 1
      (omega arith) (omega arith)

del_near_example :
    (ctx' : Ctx) × (pupa_store_del fine two key_a ≡ (ok, ctx'))
    × (ctx'.store_hdr.item_section.used + 1 ≡ 2)
    × (key_offset ctx'.mem (current ctx' 0) ≡ value_offset two.mem (current two 0 + 16))
    × (key_len ctx'.mem (current ctx' 0) ≡ value_len two.mem (current two 0 + 16))
del_near_example =
    del_near two two-IsStore (ctx-IsFresh 2) key_a IsKey-a 0 HasKey-a fine (omega arith)

cnt_b_three : val_cnt three.mem (current three 1) ≡ 1
unfolding offset item_len
cnt_b_three = cnt_b

set_full_example :
    (ctx' : Ctx) × (pupa_store_set fine three key_least value_c ≡ some (overflow, ctx'))
    × IsStore ctx'
    × IsFresh ctx'
    × ReadsAlike three ctx' key_b 1 1
set_full_example =
    set_full three three-IsStore (ctx-IsFresh 3) key_least IsKey-least LacksKey-three fine key_b
      IsKey-b 1 1 (HasKey-b 3 (omega arith)) (omega arith) (omega (arith, cnt_b_three)) value_c refl

del_absent_example :
    (ctx' : Ctx) × (pupa_store_del fine two key_c ≡ (not_found, ctx'))
    × IsStore ctx'
    × IsFresh ctx'
    × ReadsAlike two ctx' key_b 1 1
del_absent_example =
    del_absent two two-IsStore (ctx-IsFresh 2) key_c IsKey-c LacksKey-c fine key_b IsKey-b 1 1
      (HasKey-b 2 (omega arith)) (omega arith) (omega (arith, cnt_second))

set_new_least_example :
    (ctx' : Ctx) × IsAdded two ctx' key_least value_c 0
    × (pupa_store_set fine two key_least value_c ≡ some (ok, ctx'))
set_new_least_example =
    set_new_least two two-IsStore (ctx-IsFresh 2) key_least value_c IsKey-least
      (fits 2 (omega arith) key_least refl) (room 2 3 (omega arith))
      (LacksKey-least 2 (omega arith)) fine refl 1 (omega arith) (omega arith)
      (least 2 (omega arith))

set_new_lost_example : pupa_store_set fine one key_least value_c ≡ none
set_new_lost_example =
    set_new_lost one one-IsStore (ctx-IsFresh 1) key_least value_c IsKey-least
      (fits 1 (omega arith) key_least refl) (room 1 2 (omega arith))
      (LacksKey-least 1 (omega arith)) fine refl 0 (omega arith) (omega arith)
      (least 1 (omega arith))

cnt_third : val_cnt three.mem (current three 1) ≡ 1
unfolding offset item_len
cnt_third = cnt_b

del_keeps_the_key_example :
    (ctx' : Ctx) × (pupa_store_del fine three key_b ≡ (ok, ctx'))
    × ReadsAlike three ctx' key_b 1 1
    × LacksKey ctx' key_c
del_keeps_the_key_example =
    del_keeps_the_key three three-IsStore (ctx-IsFresh 3) key_b IsKey-b 1 (HasKey-b 3 (omega arith))
      fine 1 (omega arith) (omega (arith, cnt_third)) (omega arith) (omega arith) key_c 2
      (omega arith) HasKey-c
