-- ===== src/Store/Window.antt =====
-- `pupa_store_set` counts a new item before it switches the item section: what other processes find
-- in between. A lookup there gives `bsearch` an array that is out of order, for which C promises nothing.
use pupa.Common.{ℕ, ◌+◌, ◌≡◌, refl}
use pupa.Item.{Str, key_len}
use pupa.Context.{Ctx}
use pupa.Write.{count_item}
use pupa.Store.{IsStore, IsFresh, HasRoom}
use pupa.Store.Find.{IsKey}
use pupa.Store.Get.{LacksKey, current}
use pupa.Store.Added.{Fits}
use pupa.Store.SetNew.{before_count}
use pupa.Store.Adding.{Adding}

module _ (ctx : Ctx) where
  counted_mem : (count_item ctx).mem ≡ ctx.mem
  unfolding count_item
  counted_mem = refl

module _ (ctx : Ctx) (s : IsStore ctx) (fresh : IsFresh ctx) (key value : Str) (k : IsKey key)
    (fits : Fits ctx.store_hdr key value)
    (g : HasRoom ctx.store_hdr (ctx.store_hdr.item_section.used + 1)) (absent : LacksKey ctx key)
    (empty : key_len ctx.mem (current ctx ctx.store_hdr.item_section.used) ≡ 0) where
  abbrev n : ℕ
  n = ctx.store_hdr.item_section.used

  abbrev added : Ctx
  added = before_count ctx s fresh key value k fits g absent
