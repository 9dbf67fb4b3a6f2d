-- ===== src/Store/Reading.antt =====
-- What `pupa_store_get` answers on a store with a new item, and on one with a new version of an item.
use pupa.Common.{ℕ, ◌≤◌, ◌<◌, ◌≡◌, ◌≢◌, ◌∙◌, some, arith, Ordering, pos}
use pupa.Item.{Str, View, val_cnt}
use pupa.Item.Order.{order, order_swap, order-ext, item_key, SameStr, SameStr-trans, SameStr-sym}
use pupa.Context.{ok, Ctx}
use pupa.Read.{pupa_store_get, refresh}
use pupa.Write.Strings.{terminated}
use pupa.Store.{IsStore, item_value}
use pupa.Store.Find.{IsKey, asked-terminated}
use pupa.Store.Get.{HasKey, current, text, get_present}
use pupa.Store.Insert.{shifted, shifted_le}
use pupa.Store.SetNew.{IsAdded}
use pupa.Store.SetOld.{IsReplaced}

-- In `ctx'`, `key` is found and version 1 of it is `value` with a '\0' behind it.
abbrev pub Reads : Ctx → Str → Str → Type 0
Reads ctx' key value =
    (w : View) × (pupa_store_get ctx' key (pos 1) ≡ (ok, some w, refresh ctx'))
    × SameStr (text ctx'.mem w) (terminated value)

-- Version `v` of `key` in `ctx` and version `v'` of it in `ctx'` are both there, and the same string.
abbrev pub ReadsAlike : Ctx → Ctx → Str → ℕ → ℕ → Type 0
ReadsAlike ctx ctx' key v v' =
    (w w' : View) × (pupa_store_get ctx key (pos v) ≡ (ok, some w, refresh ctx))
    × (pupa_store_get ctx' key (pos v') ≡ (ok, some w', refresh ctx'))
    × SameStr (text ctx.mem w) (text ctx'.mem w')

-- The versions `v` and `v'` of two items, one in each store, that hold the same string.
pub alike :
    (ctx ctx' : Ctx) (s : IsStore ctx) (s' : IsStore ctx') (key : Str) (k : IsKey key)
    (i i' v v' : ℕ)
    → HasKey ctx key i
    → HasKey ctx' key i'
    → 0 < v
    → v ≤ val_cnt ctx.mem (current ctx i)
    → 0 < v'
    → v' ≤ val_cnt ctx'.mem (current ctx' i')
    → SameStr
        (item_value ctx.store_hdr ctx.mem (current ctx i) v)
        (item_value ctx'.store_hdr ctx'.mem (current ctx' i') v')
    → ReadsAlike ctx ctx' key v v'
alike ctx ctx' s s' key k i i' v v' h h' p q p' q' same =
    let (w, e, t, from, to) = get_present ctx s key k v i h p q in
    let (w', e', t', from', to') = get_present ctx' s' key k v' i' h' p' q' in
    (w, w', e, e', SameStr-trans _ _ _ t (SameStr-trans _ _ _ same (SameStr-sym _ _ t')))

module _ (ctx ctx' : Ctx) (key value : Str) (r : ℕ) (a : IsAdded ctx ctx' key value r)
    (k : IsKey key) where
  pub new_HasKey : HasKey ctx' key r
  new_HasKey = record {
    inside = omega (arith, a.within, a.used);
    same = SameStr-trans _ _ _ (asked-terminated key k) (SameStr-sym _ _ a.new_key);
  }

  pub added-Reads : Reads ctx' key value
  added-Reads =
      let cnt = a.new_cnt in
      let (w, e, t, from, to) =
        get_present ctx' a.store key k 1 r new_HasKey (omega arith) (omega arith) in
      (w, e, SameStr-trans _ _ _ t a.new_value)

  pub other_HasKey : (other : Str) (i : ℕ) → HasKey ctx other i → HasKey ctx' other (shifted r i)
  other_HasKey other i h = record {
    inside = omega (arith, shifted_le ctx.store_hdr.item_section.used r i h.inside, a.used);
    same = SameStr-trans _ _ _ h.same (a.others i h.inside).same_key;
  }

  -- The new item stands before the item `i` if its key is smaller.
  pub new_below :
      (i : ℕ)
      → i < ctx.store_hdr.item_section.used
      → r ≤ i
      → order (terminated key) (item_key ctx.mem (current ctx i)) ≡ Ordering.lt
  new_below i l le =
      order-ext _ _ _ _ (SameStr-sym _ _ a.new_key) (a.others i l).same_key
      ∙ a.store.table.ordered r (shifted r i) (ground arith)
          (omega (arith, shifted_le ctx.store_hdr.item_section.used r i l, a.used))

  pub new_above :
      (i : ℕ) → i < r → order (terminated key) (item_key ctx.mem (current ctx i)) ≡ Ordering.gt
  new_above i l =
      let l' : i < ctx.store_hdr.item_section.used = omega (arith, a.within) in
      order-ext _ _ _ _ (SameStr-sym _ _ a.new_key) (a.others i l').same_key
      ∙ order_swap _ _
          (a.store.table.ordered (shifted r i) r (ground arith) (omega (arith, a.within, a.used)))

module _ (ctx ctx' : Ctx) (s : IsStore ctx) (value : Str) (i : ℕ)
    (a : IsReplaced ctx ctx' value i) where
  pub replaced_HasKey : (key : Str) → HasKey ctx key i → HasKey ctx' key i
  replaced_HasKey key h = record {
    inside = omega (arith, h.inside, a.used);
    same = SameStr-trans _ _ _ h.same a.same_key;
  }

  pub replaced_cnt : i < ctx.store_hdr.item_section.used → 1 ≤ val_cnt ctx'.mem (current ctx' i)
  replaced_cnt l = ground (arith, a.counted, s.room.versions)

  pub replaced-Reads : (key : Str) → IsKey key → HasKey ctx key i → Reads ctx' key value
  replaced-Reads key k h =
      let (w, e, t, from, to) =
        get_present ctx' a.store key k 1 i (replaced_HasKey key h) (omega arith)
          (replaced_cnt h.inside) in
      (w, e, SameStr-trans _ _ _ t a.newest)

  pub replaced_other : (key : Str) (o : ℕ) → o ≢ i → HasKey ctx key o → HasKey ctx' key o
  replaced_other key o ne h = record {
    inside = omega (arith, h.inside, a.used);
    same = SameStr-trans _ _ _ h.same (a.others o h.inside ne).same_key;
  }
