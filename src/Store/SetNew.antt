-- ===== src/Store/SetNew.antt =====
-- `pupa_store_set` of a key that is not there, where it fits without a compaction.
use pupa.Common.{ℕ, ◌+◌, ◌*◌, ◌^◌, ◌≤◌, ◌<◌, ◌≡◌, ◌∙◌, ap, refl, ◌⊎◌, inl, inr, true, none, some}
use pupa.Layout.{snapshot_offset}
use pupa.Item.{Str, val_cnt}
use pupa.Item.Order.{item_key, SameStr, SameStr-trans}
use pupa.Context.{ok, Ctx, Env}
use pupa.Write.{make_snapshot, pupa_store_item_add, finish_new, pupa_store_set, sync_status}
use pupa.Write.Strings.{terminated}
use pupa.Store.{IsStore, IsFresh, HasRoom, item_at, item_value}
use pupa.Store.Find.{IsKey, asked-terminated}
use pupa.Store.Get.{LacksKey, current}
use pupa.Store.Keep.{SameItem, SameItem-trans}
use pupa.Store.Snapshot.{snapshot_lacks, snapshot_misses, snapshot_items, snapshot-IsTable}
use pupa.Store.Finish.{
  IsReady, sorting, finish_lem, finished, sorted_mem, extended, finished_used, finished-IsStore,
  finished-IsFresh, finished_others, finished_key, finished_value,
}
use pupa.Store.Insert.{IsInserted, shifted}
use pupa.Store.Added.{Fits, item_add_lem}

-- `ctx'` is the store `ctx` with a new item for `key` at place `r`: the other items keep their keys,
-- versions and values, in the same order.
pub record IsAdded (ctx ctx' : Ctx) (key value : Str) (r : ℕ) : Type 0 where
  pub store : IsStore ctx'
  pub fresh : IsFresh ctx'
  pub used : ctx'.store_hdr.item_section.used ≡ ctx.store_hdr.item_section.used + 1
  pub within : r ≤ ctx.store_hdr.item_section.used
  pub others :
      (i : ℕ)
      → i < ctx.store_hdr.item_section.used
      → SameItem ctx.store_hdr ctx.mem
          (current ctx i)
          ctx'.store_hdr
          ctx'.mem
          (current ctx' (shifted r i))
  pub new_key : SameStr (item_key ctx'.mem (current ctx' r)) (terminated key)
  pub new_cnt : val_cnt ctx'.mem (current ctx' r) ≡ 1
  pub new_value : SameStr (item_value ctx'.store_hdr ctx'.mem (current ctx' r) 1) (terminated value)

-- When the call returns, with the status of the sync and the new store `ctx'`. It returns if an item
-- is in front of the new one; a new smallest key makes it return or not by the number of items.
pub record SetsNew (env : Env) (ctx ctx' : Ctx) (key value : Str) (r : ℕ) : Type 0 where
  pub outcome :
      (pupa_store_set env ctx key value ≡ some (sync_status env, ctx'))
      ⊎ ((r ≡ 0) × (pupa_store_set env ctx key value ≡ none))
  pub later : 0 < r → pupa_store_set env ctx key value ≡ some (sync_status env, ctx')
  pub least :
      r ≡ 0
      → (k : ℕ)
      → (2 * 2 ^ k ≤ ctx.store_hdr.item_section.used + 2
          → ctx.store_hdr.item_section.used + 2 < 3 * 2 ^ k
          → pupa_store_set env ctx key value ≡ some (sync_status env, ctx'))
        × (3 * 2 ^ k ≤ ctx.store_hdr.item_section.used + 2
            → ctx.store_hdr.item_section.used + 2 < 4 * 2 ^ k
            → pupa_store_set env ctx key value ≡ none)

module _ (ctx : Ctx) (s : IsStore ctx) (fresh : IsFresh ctx) (key value : Str) (k : IsKey key)
    (fits : Fits ctx.store_hdr key value)
    (g : HasRoom ctx.store_hdr (ctx.store_hdr.item_section.used + 1))
    (absent : LacksKey ctx key) where
  abbrev snap : Ctx
  snap = make_snapshot ctx

  snap_absent :
      (i : ℕ)
      → i < ctx.store_hdr.item_section.used
      → ¬ SameStr
          (terminated key)
          (item_key snap.mem (item_at ctx.store_hdr (snapshot_offset ctx.store_hdr.item_section) i))
  snap_absent i l same =
      snapshot_lacks ctx s fresh key k absent i l
        (SameStr-trans _ _ _ (asked-terminated key k) same)

  -- What the call comes to.
  set_added :
      (env : Env)
      → pupa_store_set env ctx key value
        ≡ finish_new env (
            pupa_store_item_add snap
              (item_at snap.store_hdr snap.store_items_snapshot snap.store_hdr.item_section.used)
              key
              value)
  unfolding pupa_store_set
  set_added env = rw (snapshot_misses ctx s fresh key k absent) refl

  pub ready : IsReady snap key value
  unfolding make_snapshot
  ready = record {
    short = k.short;
    fits = fits;
    room = g;
    table = snapshot-IsTable ctx s fresh;
    absent = snap_absent;
    points = refl;
  }

  item_added :
      pupa_store_item_add snap
        (item_at snap.store_hdr snap.store_items_snapshot snap.store_hdr.item_section.used)
        key
        value
      ≡ (ok, extended snap key value ready)
  unfolding make_snapshot
  item_added = item_add_lem snap key value k.short fits g

  -- The context after `pupa_store_item_add`, in front of `used++`.
  abbrev pub before_count : Ctx
  before_count = extended snap key value ready

  pub set_adds : (env : Env) → pupa_store_set env ctx key value ≡ finish_new env (ok, before_count)
  unfolding make_snapshot
  set_adds env = set_added env ∙ ap (finish_new env) item_added

  abbrev new_ctx : ℕ → Ctx
  new_ctx r = finished snap key value ready r

  abbrev Inserts : ℕ → Type 0
  Inserts r =
      IsInserted (extended snap key value ready).store_hdr (extended snap key value ready).mem
        (sorted_mem snap key value ready r) (snapshot_offset snap.store_hdr.item_section)
        snap.store_hdr.item_section.used r

  new-IsAdded : (r : ℕ) → Inserts r → IsAdded ctx (new_ctx r) key value r
  unfolding make_snapshot
  new-IsAdded r ins = record {
    store = finished-IsStore snap key value ready r ins;
    fresh = finished-IsFresh snap key value ready r;
    used = finished_used snap key value ready r;
    within = ins.within;
    others = λ i l.
        SameItem-trans _ _ _ _ _ _ _ _ _ (snapshot_items ctx s fresh i l)
          (finished_others snap key value ready r ins i l);
    new_key = finished_key snap key value ready r ins;
    new_cnt = (finished_value snap key value ready r ins).0;
    new_value = (finished_value snap key value ready r ins).1;
  }

  -- `pupa_store_set` of a new key that fits: the new item has a place `r` in the resulting store, and
  -- this says when the call returns with it.
  pub set_new_lem :
      (env : Env)
      → env.allocated ≡ true
      → (ctx' : Ctx) × (r : ℕ) × IsAdded ctx ctx' key value r × SetsNew env ctx ctx' key value r
  unfolding make_snapshot
  set_new_lem env a =
      let (r, sorts) = sorting snap key value ready in
      let reached = set_adds env in
      let outcome = finish_lem snap key value ready env r a in
      (
        new_ctx r,
        r,
        new-IsAdded r sorts.inserted,
        record {
          outcome = elim sorts.outcome [
            | inl e ↦ inl (reached ∙ outcome.0 e)
            | inr (z, e) ↦ inr (z, reached ∙ outcome.1 e)
          ];
          later = λ p. reached ∙ outcome.0 (sorts.later p);
          least = λ z j. (
            (λ p q. reached ∙ outcome.0 ((sorts.least z j).0 p q)),
            λ p q. reached ∙ outcome.1 ((sorts.least z j).1 p q),
          );
        },
      )
