-- ===== src/Store/SetGet.antt =====
-- What `pupa_store_get` answers after `pupa_store_set`, and when a new key is set at all.
use pupa.Common.{
  ℕ, ◌+◌, ◌*◌, ◌^◌, ◌≤◌, ◌<◌, ◌≡◌, ◌≢◌, ◌⊎◌, inl, inr, true, none, some, arith, Ordering,
}
use pupa.Item.{Str, val_cnt}
use pupa.Item.Order.{order, item_key}
use pupa.Context.{Ctx, Env}
use pupa.Write.{pupa_store_set, sync_status}
use pupa.Write.Strings.{terminated}
use pupa.Store.{IsStore, IsFresh, HasRoom}
use pupa.Store.Find.{IsKey}
use pupa.Store.Get.{HasKey, LacksKey, current}
use pupa.Store.Insert.{shifted}
use pupa.Store.Added.{Fits}
use pupa.Store.SetNew.{IsAdded, set_new_lem}
use pupa.Store.SetOld.{set_old_lem}
use pupa.Store.Replaced.{FitsValue}
use pupa.Store.Reading.{
  Reads, ReadsAlike, alike, added-Reads, other_HasKey, new_below, new_above, replaced_HasKey,
  replaced-Reads, replaced_other,
}

module _ (ctx : Ctx) (s : IsStore ctx) (fresh : IsFresh ctx) (key value : Str) (k : IsKey key)
    (fits : Fits ctx.store_hdr key value)
    (g : HasRoom ctx.store_hdr (ctx.store_hdr.item_section.used + 1)) (absent : LacksKey ctx key)
    (env : Env) (allocated : env.allocated ≡ true) where
  -- In a fresh store with room for one more item, and with malloc succeeding, let a key be new, fit
  -- with its value without a compaction, and be greater than the key of some item. `pupa_store_set`
  -- returns what the sync reports, and the new store is the old one with one more item, in order,
  -- that holds the key and the value.
  pub set_new_greater :
      (i : ℕ)
      → i < ctx.store_hdr.item_section.used
      → order (terminated key) (item_key ctx.mem (current ctx i)) ≡ Ordering.gt
      → (ctx' : Ctx) × (r : ℕ) × IsAdded ctx ctx' key value r
        × (pupa_store_set env ctx key value ≡ some (sync_status env, ctx'))
  set_new_greater i l gt =
      let (ctx', r, added, sets) =
        set_new_lem ctx s fresh key value k fits g absent env allocated in
      (ctx', r, added, sets.later (positive ctx' r added))
    where
      positive : (ctx' : Ctx) (r : ℕ) → IsAdded ctx ctx' key value r → 0 < r
      positive ctx' r added = elim (rank_cases r) [
        | inl z ↦
            absurd (ground (arith, gt, new_below ctx ctx' key value r added k i l (omega arith)))
        | inr p ↦ p
      ]
        where
          rank_cases : (x : ℕ) → (x ≡ 0) ⊎ (0 < x)
          rank_cases x = omega arith

  zero_rank :
      ((i : ℕ)
        → i < ctx.store_hdr.item_section.used
        → order (terminated key) (item_key ctx.mem (current ctx i)) ≡ Ordering.lt)
      → (ctx' : Ctx) (r : ℕ) → IsAdded ctx ctx' key value r
      → r ≡ 0
  zero_rank least ctx' r added = elim (rank_cases r) [
    | inl z ↦ z
    | inr p ↦ absurd (
        ground (
          arith,
          least 0 (omega (arith, added.within)),
          new_above ctx ctx' key value r added k 0 p,
        ))
  ]
    where
      rank_cases : (x : ℕ) → (x ≡ 0) ⊎ (0 < x)
      rank_cases x = omega arith

  -- In a fresh store of `n` items with room for one more, and with malloc succeeding, a new key
  -- that fits with its value without a compaction and is smaller than the keys of all items is set
  -- if `n + 2` lies in the lower half of a power-of-two interval (`n` is 0, 2, 6, 7, 8 or 9, say):
  -- `pupa_store_set` returns what the sync reports, and the new item is the first one.
  pub set_new_least :
      (j : ℕ)
      → 2 * 2 ^ j ≤ ctx.store_hdr.item_section.used + 2
      → ctx.store_hdr.item_section.used + 2 < 3 * 2 ^ j
      → ((i : ℕ)
          → i < ctx.store_hdr.item_section.used
          → order (terminated key) (item_key ctx.mem (current ctx i)) ≡ Ordering.lt)
      → (ctx' : Ctx) × IsAdded ctx ctx' key value 0
        × (pupa_store_set env ctx key value ≡ some (sync_status env, ctx'))
  set_new_least j lo hi least =
      let (ctx', r, added, sets) =
        set_new_lem ctx s fresh key value k fits g absent env allocated in
      let z = zero_rank least ctx' r added in (ctx', rw z at added, (sets.least z j).0 lo hi)

  -- In a fresh store of `n` items with room for one more, and with malloc succeeding, a new key
  -- that fits with its value without a compaction and is smaller than the keys of all items is not
  -- set if `n + 2` lies in the upper half of a power-of-two interval (`n` is 1, 4, 5 or 10, say):
  -- the search of the sort leaves the array to the left, where the model stops.
  pub set_new_lost :
      (j : ℕ)
      → 3 * 2 ^ j ≤ ctx.store_hdr.item_section.used + 2
      → ctx.store_hdr.item_section.used + 2 < 4 * 2 ^ j
      → ((i : ℕ)
          → i < ctx.store_hdr.item_section.used
          → order (terminated key) (item_key ctx.mem (current ctx i)) ≡ Ordering.lt)
      → pupa_store_set env ctx key value ≡ none
  set_new_lost j lo hi least =
      let (ctx', r, added, sets) =
        set_new_lem ctx s fresh key value k fits g absent env allocated in
      (sets.least (zero_rank least ctx' r added) j).1 lo hi

  -- In a fresh store with room for one more item, and with malloc succeeding, let a key be new, fit
  -- with its value without a compaction, and be greater than the key of some item. `pupa_store_set`
  -- returns what the sync reports, and version 1 of the key is then read back by `pupa_store_get`
  -- as the value that was set, with a '\0' behind it.
  pub set_new_get :
      (i : ℕ)
      → i < ctx.store_hdr.item_section.used
      → order (terminated key) (item_key ctx.mem (current ctx i)) ≡ Ordering.gt
      → (ctx' : Ctx) × (pupa_store_set env ctx key value ≡ some (sync_status env, ctx'))
        × Reads ctx' key value
  set_new_get i l gt =
      let (ctx', r, added, e) = set_new_greater i l gt in
      (ctx', e, added-Reads ctx ctx' key value r added k)

  -- In a fresh store with room for one more item, and with malloc succeeding, let a key be new, fit
  -- with its value without a compaction, and be greater than the key of some item. `pupa_store_set`
  -- returns what the sync reports, and every version of every key that was there is then read by
  -- `pupa_store_get` as before.
  pub set_new_keeps :
      (i : ℕ)
      → i < ctx.store_hdr.item_section.used
      → order (terminated key) (item_key ctx.mem (current ctx i)) ≡ Ordering.gt
      → (other : Str) → IsKey other
      → (o v : ℕ) → HasKey ctx other o
      → 0 < v
      → v ≤ val_cnt ctx.mem (current ctx o)
      → (ctx' : Ctx) × (pupa_store_set env ctx key value ≡ some (sync_status env, ctx'))
        × ReadsAlike ctx ctx' other v v
  set_new_keeps i l gt other ko o v h p q =
      let (ctx', r, a, e) = set_new_greater i l gt in
      let item = a.others o h.inside in
      (
        ctx',
        e,
        alike ctx ctx' s a.store other ko o (shifted r o) v v h
            (other_HasKey ctx ctx' key value r a k other o h) p q p (omega (arith, item.same_cnt))
            (item.same_value v p q),
      )

module _ (ctx : Ctx) (s : IsStore ctx) (fresh : IsFresh ctx) (key value : Str) (k : IsKey key)
    (fits : FitsValue ctx.store_hdr value) (i : ℕ) (has : HasKey ctx key i) (env : Env) where
  -- In a fresh store, `pupa_store_set` of a key that is there, with a value that fits without a
  -- compaction, returns what the sync reports, and version 1 of the key is then read back as the value
  -- that was set, with a '\0' behind it.
  pub set_old_get :
      (ctx' : Ctx) × (pupa_store_set env ctx key value ≡ some (sync_status env, ctx'))
      × Reads ctx' key value
  set_old_get =
      let (ctx', a, f, e) = set_old_lem ctx s fresh key value k fits i has env in
      (ctx', e, replaced-Reads ctx ctx' s value i a key k has)

  -- In a fresh store, `pupa_store_set` of a key that is there, with a value that fits without a
  -- compaction, returns what the sync reports, and moves the versions of the key back by one: what was
  -- version `v`, below the maximum, is afterwards read as version `v + 1`.
  pub set_old_older :
      (v : ℕ)
      → 0 < v
      → v ≤ val_cnt ctx.mem (current ctx i)
      → v < ctx.store_hdr.max_ver_num
      → (ctx' : Ctx) × (pupa_store_set env ctx key value ≡ some (sync_status env, ctx'))
        × ReadsAlike ctx ctx' key v (v + 1)
  set_old_older v p q below =
      let (ctx', a, f, e) = set_old_lem ctx s fresh key value k fits i has env in
      let there : v + 1 ≤ val_cnt ctx'.mem (current ctx' i) = ground (arith, a.counted) in
      (
        ctx',
        e,
        alike ctx ctx' s a.store key k i i v (v + 1) has
            (replaced_HasKey ctx ctx' s value i a key has) p q (omega arith) there
            (a.older v p there),
      )

  -- In a fresh store, `pupa_store_set` of a key that is there, with a value that fits without a
  -- compaction, returns what the sync reports, and leaves every version of every key of another item
  -- as it was for `pupa_store_get`.
  pub set_old_keeps :
      (other : Str)
      → IsKey other
      → (o v : ℕ) → o ≢ i
      → HasKey ctx other o
      → 0 < v
      → v ≤ val_cnt ctx.mem (current ctx o)
      → (ctx' : Ctx) × (pupa_store_set env ctx key value ≡ some (sync_status env, ctx'))
        × ReadsAlike ctx ctx' other v v
  set_old_keeps other ko o v ne h p q =
      let (ctx', a, f, e) = set_old_lem ctx s fresh key value k fits i has env in
      let item = a.others o h.inside ne in
      (
        ctx',
        e,
        alike ctx ctx' s a.store other ko o o v v h
            (replaced_other ctx ctx' s value i a other o ne h) p q p (omega (arith, item.same_cnt))
            (item.same_value v p q),
      )
