-- ===== src/Tests/Dicts.antt =====
-- The store of two items against the dictionary of its contents.
use pupa.Common.{◌≡◌, refl, some, arith, pos}
use pupa.Context.{Ctx, ok}
use pupa.Read.{pupa_store_get}
use pupa.Store.Adding.{Adding, snapshot-Adding}
use pupa.Write.{make_snapshot, finish_new, pupa_store_set, pupa_store_del, switch_items}
use pupa.Memory.{Mem, copy, copy_outside}
use pupa.Layout.{snapshot_offset, item_len}
use pupa.Store.Moments.{Moment, copying_items}
use pupa.Dict.Atomic.{set_new_unseen, Answers, set_old_atomic}
use pupa.Write.Strings.{terminated}
use pupa.Store.{IsStore, item_at}
use pupa.Store.SetGet.{set_new_greater}
use pupa.Dict.{Dict, str_text, dict_set, dict_del, dict_get}
use pupa.Dict.Represents.{Represents, answer, get-dict_get}
use pupa.Dict.Keys.{key_text}
use pupa.Dict.Contents.{contents, contents-Represents}
use pupa.Dict.Refine.{set_new-dict_set, set_old-dict_set, del-dict_del}
use pupa.Dict.Run.{Reach, here, next, inserted, looked_up, run_answers}
use pupa.Tests.Fixture.{two, two-IsStore, ctx-IsFresh, room, fine}
use pupa.Tests.Keys.{
  key_a, key_b, key_c, IsKey-a, IsKey-b, IsKey-c, HasKey-a, HasKey-b, LacksKey-c, value_c,
}
use pupa.Tests.Writes.{fits, fits_value, c_above_a}

abbrev d : Dict
d = contents two

rep : Represents two d
rep = contents-Represents two two-IsStore

get-dict_get_example :
    answer two (pupa_store_get two key_a (pos 2)) ≡ dict_get 3 d (key_text key_a) 2
get-dict_get_example = get-dict_get two two-IsStore d rep key_a IsKey-a 2 (omega arith)

abbrev with_c : Dict
with_c = dict_set 3 d (key_text key_c) (str_text (terminated value_c))

abbrev with_a : Dict
with_a = dict_set 3 d (key_text key_a) (str_text (terminated value_c))

set_new-dict_set_example :
    (ctx' : Ctx) × (pupa_store_set fine two key_c value_c ≡ some (ok, ctx'))
    × IsStore ctx'
    × Represents ctx' with_c
set_new-dict_set_example =
    set_new-dict_set two two-IsStore (ctx-IsFresh 2) d rep key_c IsKey-c fine value_c
      (fits 2 (omega arith) key_c refl) (room 2 3 (omega arith)) LacksKey-c refl 0 (omega arith)
      c_above_a

set_old-dict_set_example :
    (ctx' : Ctx) × (pupa_store_set fine two key_a value_c ≡ some (ok, ctx'))
    × IsStore ctx'
    × Represents ctx' with_a
set_old-dict_set_example =
    set_old-dict_set two two-IsStore (ctx-IsFresh 2) d rep key_a IsKey-a fine value_c fits_value 0
      HasKey-a

del-dict_del_example :
    (ctx' : Ctx) × (pupa_store_del fine two key_b ≡ (ok, ctx'))
    × IsStore ctx'
    × Represents ctx' (dict_del d (key_text key_b))
del-dict_del_example =
    del-dict_del two two-IsStore (ctx-IsFresh 2) d rep key_b IsKey-b fine 1
      (HasKey-b 2 (omega arith)) (omega arith)

-- The call that adds "c".
set_c : (ctx' : Ctx) × (pupa_store_set fine two key_c value_c ≡ some (ok, ctx'))
set_c =
    let (ctx', r, a, e) =
      set_new_greater two two-IsStore (ctx-IsFresh 2) key_c value_c IsKey-c
        (fits 2 (omega arith) key_c refl) (room 2 3 (omega arith)) LacksKey-c fine refl 0
        (omega arith) c_above_a in
    (ctx', e)

abbrev read_back : Ctx
read_back = (pupa_store_get set_c.0 key_a (pos 1)).2

-- "c" is added, and "a" looked up.
run : Reach fine two d read_back with_c
run =
    next
      (next here (
        inserted key_c value_c IsKey-c (ctx-IsFresh 2) LacksKey-c (fits 2 (omega arith) key_c refl)
          (room 2 3 (omega arith)) set_c.1 refl))
      (looked_up key_a (pos 1) refl refl)

run_answers_example :
    IsStore read_back
    × (answer read_back (pupa_store_get read_back key_c (pos 1))
        ≡ dict_get read_back.store_hdr.max_ver_num with_c (key_text key_c) 1)
run_answers_example =
    run_answers fine two read_back d with_c refl two-IsStore rep run key_c IsKey-c 1 (omega arith)

-- The memory when the first 8 bytes of the snapshot are copied.
abbrev copying : Mem
copying = copy two.mem 336 128 8

copying-Moment :
    Moment two
      (item_at two.store_hdr (snapshot_offset two.store_hdr.item_section) 0)
      value_c
      copying
unfolding snapshot_offset item_len
copying-Moment = copying_items (λ x h. copy_outside two.mem 336 128 8 x (omega arith))

set_old_atomic_example :
    (before : Ctx) × (pupa_store_set fine two key_a value_c
      ≡ some (ok, switch_items before before.store_hdr.item_section.used))
    × Answers (record two { mem = copying }) d key_b 1
    × Answers before d key_b 1
    × Answers (switch_items before before.store_hdr.item_section.used) with_a key_b 1
set_old_atomic_example =
    set_old_atomic two two-IsStore (ctx-IsFresh 2) d rep key_a value_c IsKey-a fits_value 0 HasKey-a
      fine copying copying-Moment key_b IsKey-b 1 (omega arith)

set_new_unseen_example :
    (added : Ctx) × (pupa_store_set fine two key_c value_c ≡ finish_new fine (ok, added))
    × Adding two key_c value_c (make_snapshot two)
    × Adding two key_c value_c added
    × Answers (make_snapshot two) d key_b 1
set_new_unseen_example =
    set_new_unseen two two-IsStore (ctx-IsFresh 2) d rep key_c value_c IsKey-c
      (fits 2 (omega arith) key_c refl) (room 2 3 (omega arith)) LacksKey-c fine (make_snapshot two)
      (snapshot-Adding two two-IsStore (ctx-IsFresh 2) key_c value_c IsKey-c
        (fits 2 (omega arith) key_c refl) (room 2 3 (omega arith)) LacksKey-c)
      key_b IsKey-b 1 (omega arith)
