-- ===== src/Store/Lost.antt =====
-- `pupa_store_set` of a key that is there, and then `pupa_store_set` of a new key: with and without a
-- lookup in between.
use pupa.Common.{ℕ, ◌+◌, ◌^◌, ◌≤◌, ◌<◌, ◌≡◌, ◌≢◌, ◌∙◌, ap, sym, refl, true, some, arith, Ordering}
use native.Mathlib.Decide.{ℕ_discrete}
use pupa.Item.{Str, val_cnt}
use pupa.Item.Order.{item_key, order, order-ext, SameStr, SameStr-refl, SameStr-trans, SameStr-sym}
use pupa.Context.{Ctx, Env}
use pupa.Read.{refresh}
use pupa.Write.{pupa_store_set, sync_status}
use pupa.Write.Strings.{terminated}
use pupa.Layout.{snapshot_offset}
use pupa.Store.{IsStore, IsTable, IsFresh, HasRoom, item_at}
use pupa.Store.Find.{IsKey, asked}
use pupa.Store.Get.{HasKey, LacksKey, current, get_present}
use pupa.Store.Keep.{SameItem, SameItem-trans}
use pupa.Store.Insert.{shifted, shifted_le}
use pupa.Store.Added.{Fits}
use pupa.Store.Replaced.{FitsValue}
use pupa.Store.SetNew.{IsAdded}
use pupa.Store.SetOld.{IsReplaced, IsFilled, set_old_lem}
use pupa.Store.Reading.{Reads, ReadsAlike, alike, replaced_cnt}
use pupa.Store.SetGet.{set_new_greater}
use pupa.Store.Stale.{stale_set}

-- Both writes fit into the free parts of the sections.
pub record FitsBoth (ctx : Ctx) (value key2 value2 : Str) : Type 0 where
  pub item_free : ctx.store_hdr.item_section.used ≢ ctx.store_hdr.item_section.size
  pub key_free : ctx.store_hdr.key_section.used + (key2.len + 1) ≤ ctx.store_hdr.key_section.size
  pub values_free :
      ctx.store_hdr.value_section.used + (value.len + 1) + (value2.len + 1)
      ≤ ctx.store_hdr.value_section.size
  pub value_short : value.len + 1 < 2 ^ 31
  pub value2_short : value2.len + 1 < 2 ^ 31
  pub room : HasRoom ctx.store_hdr (ctx.store_hdr.item_section.used + 1)

module _ (ctx : Ctx) (s : IsStore ctx) (fresh : IsFresh ctx) (key value : Str) (k : IsKey key)
    (i : ℕ) (has : HasKey ctx key i) (key2 value2 : Str) (k2 : IsKey key2)
    (fits : FitsBoth ctx value key2 value2) (absent : LacksKey ctx key2) (env : Env)
    (allocated : env.allocated ≡ true) (j : ℕ) (inside : j < ctx.store_hdr.item_section.used)
    (greater : order (terminated key2) (item_key ctx.mem (current ctx j)) ≡ Ordering.gt) where
  fits_value : FitsValue ctx.store_hdr value
  fits_value = record {
    value_free = omega (arith, fits.values_free);
    value_short = fits.value_short;
  }

  module _ (ctx' : Ctx) (a : IsReplaced ctx ctx' value i) (f : IsFilled ctx ctx' value) where
    Fits-then : Fits ctx'.store_hdr key2 value2
    Fits-then = record {
      item_free = λ e. fits.item_free (omega (arith, a.used, f.item_size));
      key_free = omega (arith, fits.key_free, f.key_used, f.key_size);
      value_free = omega (arith, fits.values_free, f.value_used, f.value_size);
      value_short = fits.value2_short;
    }

    room_then : HasRoom ctx'.store_hdr (ctx'.store_hdr.item_section.used + 1)
    room_then = simp a.used (f.room _ fits.room)

    abbrev left : ℕ → ℕ
    left o = item_at ctx'.store_hdr (snapshot_offset ctx'.store_hdr.item_section) o

    left_item :
        (o : ℕ)
        → o < ctx.store_hdr.item_section.used
        → SameItem ctx.store_hdr ctx.mem (current ctx o) ctx'.store_hdr ctx'.mem (left o)
    left_item o l = rw a.stale at (a.left_behind o l)

    left-IsTable :
        IsTable ctx'.store_hdr ctx'.mem
          (snapshot_offset ctx'.store_hdr.item_section)
          ctx'.store_hdr.item_section.used
    left-IsTable = rw a.stale at a.left_table

    left_absent :
        (o : ℕ)
        → o < ctx'.store_hdr.item_section.used
        → ¬ SameStr (asked key2) (item_key ctx'.mem (left o))
    left_absent o l same =
        let old : o < ctx.store_hdr.item_section.used = omega (arith, a.used) in
        absent o old (SameStr-trans _ _ _ same (SameStr-sym _ _ (left_item o old).same_key))

    left_greater : order (terminated key2) (item_key ctx'.mem (left j)) ≡ Ordering.gt
    left_greater =
        sym (order-ext _ _ _ _ (SameStr-refl (terminated key2)) (left_item j inside).same_key)
        ∙ greater

    -- Every item has the key that it had.
    replaced_key_at :
        (o : ℕ)
        → o < ctx.store_hdr.item_section.used
        → SameStr (item_key ctx.mem (current ctx o)) (item_key ctx'.mem (current ctx' o))
    replaced_key_at o l = elim (ℕ_discrete o i) [
      | yes e ↦ rw e a.same_key
      | no ne ↦ (a.others o l ne).same_key
    ]

    absent_then : LacksKey ctx' key2
    absent_then o l same =
        let old : o < ctx.store_hdr.item_section.used = omega (arith, a.used) in
        absent o old (SameStr-trans _ _ _ same (SameStr-sym _ _ (replaced_key_at o old)))

    greater_then : order (terminated key2) (item_key ctx'.mem (current ctx' j)) ≡ Ordering.gt
    greater_then =
        sym (order-ext _ _ _ _ (SameStr-refl (terminated key2)) (replaced_key_at j inside))
        ∙ greater

    refreshed-IsStore : IsStore (refresh ctx')
    unfolding refresh
    refreshed-IsStore = record { room = a.store.room; table = a.store.table }

    refreshed-IsFresh : IsFresh (refresh ctx')
    unfolding refresh
    refreshed-IsFresh = refl

    -- The new item is added to the current items after a lookup.
    then-IsAdded :
        (ctx'' : Ctx) × (r : ℕ) × IsAdded (refresh ctx') ctx'' key2 value2 r
        × (pupa_store_set env (refresh ctx') key2 value2 ≡ some (sync_status env, ctx''))
    unfolding refresh
    then-IsAdded =
        set_new_greater (refresh ctx') refreshed-IsStore refreshed-IsFresh key2 value2 k2 Fits-then
          room_then absent_then env allocated j (omega (arith, inside, a.used)) greater_then

    then_kept :
        (ctx'' : Ctx) (r : ℕ)
        → IsAdded (refresh ctx') ctx'' key2 value2 r
        → SameItem ctx'.store_hdr ctx'.mem
            (current ctx' i)
            ctx''.store_hdr
            ctx''.mem
            (current ctx'' (shifted r i))
    unfolding refresh
    then_kept ctx'' r added = added.others i (omega (arith, has.inside, a.used))

    then_used :
        (ctx'' : Ctx) (r : ℕ)
        → IsAdded (refresh ctx') ctx'' key2 value2 r
        → ctx''.store_hdr.item_section.used ≡ ctx.store_hdr.item_section.used + 1
    unfolding refresh
    then_used ctx'' r added = added.used ∙ ap (λ (x : ℕ). x + 1) a.used

    then-Reads :
        (ctx'' : Ctx) (r : ℕ) → IsAdded (refresh ctx') ctx'' key2 value2 r → Reads ctx'' key value
    then-Reads ctx'' r added =
        let item = then_kept ctx'' r added in
        let some_version = replaced_cnt ctx ctx' s value i a has.inside in
        let has' : HasKey ctx'' key (shifted r i) = record {
          inside = omega (
            arith,
            shifted_le ctx.store_hdr.item_section.used r i has.inside,
            then_used ctx'' r added,
          );
          same = SameStr-trans _ _ _ has.same (SameStr-trans _ _ _ a.same_key item.same_key);
        } in
        let (w, e, t, from, to) =
          get_present ctx'' added.store key k 1 (shifted r i) has' (omega arith)
            (omega (arith, item.same_cnt, some_version)) in
        (
          w,
          e,
          SameStr-trans _ _ _ t (
              SameStr-trans _ _ _ (SameStr-sym _ _ (item.same_value 1 (omega arith) some_version))
                a.newest),
        )

  -- In a fresh store with room for one more item, and with malloc succeeding, let a key be there,
  -- let another key be new and greater than the key of some item, and let both writes fit without a
  -- compaction. `pupa_store_set` of the first key, followed at once by `pupa_store_set` of the
  -- second: both return what the sync reports, and every version of the first key that was there is
  -- then read as before the first call. The first value is lost.
  pub set_set_loses :
      (v : ℕ)
      → 0 < v
      → v ≤ val_cnt ctx.mem (current ctx i)
      → (ctx' ctx'' : Ctx) × (pupa_store_set env ctx key value ≡ some (sync_status env, ctx'))
        × (pupa_store_set env ctx' key2 value2 ≡ some (sync_status env, ctx''))
        × ReadsAlike ctx ctx'' key v v
  set_set_loses v p q =
      let (ctx', a, f, e) = set_old_lem ctx s fresh key value k fits_value i has env in
      let (ctx'', r, e', s'', u, kept) =
        stale_set ctx' a.stale key2 value2 k2 (Fits-then ctx' a f) (room_then ctx' a f)
          (left-IsTable ctx' a f) (left_absent ctx' a f) env allocated j
          (omega (arith, inside, a.used)) (left_greater ctx' a f) in
      let there : i < ctx'.store_hdr.item_section.used = omega (arith, has.inside, a.used) in
      let item =
        SameItem-trans _ _ _ _ _ _ _ _ _ (left_item ctx' a f i has.inside) (kept i there) in
      let has' : HasKey ctx'' key (shifted r i) = record {
        inside = omega (arith, shifted_le ctx'.store_hdr.item_section.used r i there, u);
        same = SameStr-trans _ _ _ has.same item.same_key;
      } in
      (
        ctx',
        ctx'',
        e,
        e',
        alike ctx ctx'' s s'' key k i (shifted r i) v v has has' p q p
            (omega (arith, item.same_cnt)) (item.same_value v p q),
      )

  -- In a fresh store with room for one more item, and with malloc succeeding, let a key be there,
  -- let another key be new and greater than the key of some item, and let both writes fit without a
  -- compaction. `pupa_store_set` of the first key, the reset of `ctx->store_items` that a lookup
  -- makes, and `pupa_store_set` of the second: both return what the sync reports, and version 1 of
  -- the first key is then read back as the first value, with a '\0' behind it.
  pub set_get_set_keeps :
      (ctx' ctx'' : Ctx) × (pupa_store_set env ctx key value ≡ some (sync_status env, ctx'))
      × (pupa_store_set env (refresh ctx') key2 value2 ≡ some (sync_status env, ctx''))
      × Reads ctx'' key value
  set_get_set_keeps =
      let (ctx', a, f, e) = set_old_lem ctx s fresh key value k fits_value i has env in
      let (ctx'', r, added, e') = then-IsAdded ctx' a f in
      (ctx', ctx'', e, e', then-Reads ctx' a f ctx'' r added)
