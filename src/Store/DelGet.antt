-- ===== src/Store/DelGet.antt =====
-- What `pupa_store_get` answers after `pupa_store_del`.
use pupa.Common.{ℕ, ◌+◌, ◌*◌, ◌≤◌, ◌<◌, ◌≡◌, none, arith, Ordering, pos}
use pupa.Item.{Str, val_cnt}
use pupa.Item.Order.{order, order_same, item_key, SameStr-trans, SameStr-sym}
use pupa.Context.{not_found, Ctx, Env}
use pupa.Read.{pupa_store_get, refresh}
use pupa.Write.{pupa_store_del, sync_status}
use pupa.Store.{IsStore, IsFresh}
use pupa.Store.Find.{IsKey}
use pupa.Store.Get.{HasKey, LacksKey, current, get_missing}
use pupa.Store.Del.{IsTruncated, del_far}
use pupa.Store.Reading.{ReadsAlike, alike}

module _ (ctx ctx' : Ctx) (s : IsStore ctx) (t : IsTruncated ctx ctx') where
  -- The key of the last item is gone.
  truncated-LacksKey :
      (key : Str) (i : ℕ)
      → HasKey ctx key i
      → i + 1 ≡ ctx.store_hdr.item_section.used
      → LacksKey ctx' key
  truncated-LacksKey key i h e j l same =
      let j_i : j < i = omega (arith, t.used) in
      let equal : order (item_key ctx.mem (current ctx j)) (item_key ctx.mem (current ctx i))
          ≡ Ordering.eq =
        order_same _ _ (
          SameStr-trans _ _ _ (t.kept j l).same_key
            (SameStr-trans _ _ _ (SameStr-sym _ _ same) h.same)) in
      absurd (ground (arith, equal, s.table.ordered j i j_i h.inside))

  -- Every other key stays.
  truncated-HasKey :
      (key : Str) (i : ℕ)
      → HasKey ctx key i
      → i + 1 < ctx.store_hdr.item_section.used
      → HasKey ctx' key i
  truncated-HasKey key i h l =
      let inside : i < ctx'.store_hdr.item_section.used = omega (arith, t.used) in
      record { inside = inside; same = SameStr-trans _ _ _ h.same (t.kept i inside).same_key }

pub reaches : (i n max : ℕ) → i + 1 ≡ n → n ≤ i * (max + 1) + 1
reaches i n max e = grind arith

module _ (ctx : Ctx) (s : IsStore ctx) (fresh : IsFresh ctx) (key : Str) (k : IsKey key) (i : ℕ)
    (has : HasKey ctx key i) (env : Env) where
  -- In a fresh store, `pupa_store_del` of the greatest key returns what the sync reports, and
  -- afterwards `pupa_store_get` reports PUPA_NOT_FOUND for the key, for every version up to the
  -- maximum.
  pub del_greatest :
      (v : ℕ)
      → v ≤ ctx.store_hdr.max_ver_num
      → i + 1 ≡ ctx.store_hdr.item_section.used
      → (ctx' : Ctx) × (pupa_store_del env ctx key ≡ (sync_status env, ctx'))
        × (ctx'.store_hdr.max_ver_num ≡ ctx.store_hdr.max_ver_num)
        × (pupa_store_get ctx' key (pos v) ≡ (not_found, none, refresh ctx'))
  del_greatest v le e =
      let (ctx', t, d) = del_far ctx s fresh key k i has env (reaches i _ _ e) in
      (
        ctx',
        d,
        t.same_max,
        get_missing ctx' t.store key k v (omega (arith, t.same_max))
            (truncated-LacksKey ctx ctx' s t key i has e),
      )

  -- In a fresh store, `pupa_store_del` of a key that is not the greatest one, at an index `i` with
  -- `used <= i * (max_ver_num + 1) + 1`, returns what the sync reports, but the key is still read as
  -- before, in every version, while the greatest key is no longer found.
  pub del_keeps_the_key :
      (v : ℕ)
      → 0 < v
      → v ≤ val_cnt ctx.mem (current ctx i)
      → i + 1 < ctx.store_hdr.item_section.used
      → ctx.store_hdr.item_section.used ≤ i * (ctx.store_hdr.max_ver_num + 1) + 1
      → (greatest : Str) → (last : ℕ) → last + 1 ≡ ctx.store_hdr.item_section.used
      → HasKey ctx greatest last
      → (ctx' : Ctx) × (pupa_store_del env ctx key ≡ (sync_status env, ctx'))
        × ReadsAlike ctx ctx' key v v
        × LacksKey ctx' greatest
  del_keeps_the_key v p q l far greatest last e h =
      let (ctx', t, d) = del_far ctx s fresh key k i has env far in
      let inside : i < ctx'.store_hdr.item_section.used = omega (arith, t.used) in
      let item = t.kept i inside in
      (
        ctx',
        d,
        alike ctx ctx' s t.store key k i i v v has (truncated-HasKey ctx ctx' s t key i has l) p q p
            (omega (arith, item.same_cnt)) (item.same_value v p q),
        truncated-LacksKey ctx ctx' s t greatest last h e,
      )
