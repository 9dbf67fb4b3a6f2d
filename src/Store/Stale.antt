-- ===== src/Store/Stale.antt =====
-- A second write right behind `pupa_store_set` of a key that is there: `ctx->store_items` still points
-- at the area that was current before, and the snapshot of the second write is taken from it.
use native.Mathlib.Decide.{dec_lt}
use pupa.Common.{
  ℕ, ◌+◌, ◌-◌, ◌*◌, ◌<◌, ◌≡◌, ◌∙◌, ◌⊎◌, ap, sym, refl, inl, inr, true, some, none, arith, fun_ext,
  Ordering, ◌==◌, Bool-cases,
}
use pupa.Memory.{Mem, copy, copy_inside, copy_outside}
use pupa.Layout.{Header, snapshot_offset, item_len}
use pupa.Item.{Str}
use pupa.Item.Order.{item_key, order, order-ext, SameStr, SameStr-trans, SameStr-sym}
use pupa.Context.{ok, Ctx, Env}
use pupa.Read.{find_item}
use pupa.Write.{make_snapshot, pupa_store_item_add, finish_new, pupa_store_set, sync_status}
use pupa.Write.Strings.{terminated}
use pupa.Store.{IsStore, IsTable, HasRoom, item_at}
use pupa.Store.Find.{IsKey, asked, asked-terminated, find_item_miss}
use pupa.Store.Get.{current}
use pupa.Store.Keep.{SameItem, SameItem-refl, SameItem-trans}
use pupa.Store.Insert.{IsInserted, shifted, shifted_le}
use pupa.Store.Added.{Fits, item_add_lem}
use pupa.Store.Finish.{
  IsReady, sorting, finish_lem, finished, finished-IsStore, finished_others, finished_key,
  finished_used, extended, sorted_mem,
}

zero_or_pos : (x : ℕ) → (x ≡ 0) ⊎ (0 < x)
zero_or_pos x = omega arith

copy_self : (m : Mem) (a n x : ℕ) → copy m a a n x ≡ m x
copy_self m a n x = elim (dec_lt x a) [
  | yes p ↦ copy_outside m a a n x (inl p)
  | no p ↦ elim (dec_lt x (a + n)) [
    | yes q ↦
        let e : x ≡ a + (x - a) = omega arith in
        copy_inside m a a n x (x - a) e (omega arith) ∙ ap m (sym e)
    | no q ↦ copy_outside m a a n x (inr (omega arith))
  ]
]

module _ (ctx : Ctx) (stale : ctx.store_items ≡ snapshot_offset ctx.store_hdr.item_section) where
  abbrev hdr : Header
  hdr = ctx.store_hdr

  abbrev n : ℕ
  n = hdr.item_section.used

  abbrev base : ℕ
  base = snapshot_offset hdr.item_section

  -- The snapshot is copied onto itself.
  snapshot_same : (make_snapshot ctx).mem ≡ ctx.mem
  unfolding make_snapshot
  snapshot_same = fun_ext (λ x. elim (Bool-cases (n == 0)) [
    | inl e ↦ rw e refl
    | inr e ↦ rw e (rw stale (copy_self ctx.mem base (item_len hdr * n) x))
  ])

  module _ (key value : Str) (k : IsKey key) (fits : Fits hdr key value) (g : HasRoom hdr (n + 1))
      (table : IsTable hdr ctx.mem base n)
      (absent : (i : ℕ)
        → i < n
        → ¬ SameStr (asked key) (item_key ctx.mem (item_at hdr base i))) where
    abbrev snap : Ctx
    snap = make_snapshot ctx

    snap-IsTable : IsTable hdr snap.mem base n
    snap-IsTable = rw snapshot_same table

    snap_absent : (i : ℕ) → i < n → ¬ SameStr (asked key) (item_key snap.mem (item_at hdr base i))
    snap_absent = rw snapshot_same absent

    ready : IsReady snap key value
    unfolding make_snapshot
    ready = record {
      short = k.short;
      fits = fits;
      room = g;
      table = snap-IsTable;
      absent = λ i l same. snap_absent i l (SameStr-trans _ _ _ (asked-terminated key k) same);
      points = refl;
    }

    missed : find_item snap snap.store_items_snapshot key ≡ none
    unfolding make_snapshot
    missed = find_item_miss snap base snap-IsTable key k snap_absent

    set_added :
        (env : Env)
        → pupa_store_set env ctx key value
          ≡ finish_new env (
              pupa_store_item_add snap
                (item_at snap.store_hdr snap.store_items_snapshot snap.store_hdr.item_section.used)
                key
                value)
    unfolding pupa_store_set
    set_added env = rw missed refl

    item_added :
        pupa_store_item_add snap
          (item_at snap.store_hdr snap.store_items_snapshot snap.store_hdr.item_section.used)
          key
          value
        ≡ (ok, extended snap key value ready)
    unfolding make_snapshot
    item_added = item_add_lem snap key value k.short fits g

    abbrev new_ctx : ℕ → Ctx
    new_ctx r = finished snap key value ready r

    abbrev Inserts : ℕ → Type 0
    Inserts r =
        IsInserted (extended snap key value ready).store_hdr (extended snap key value ready).mem
          (sorted_mem snap key value ready r) (snapshot_offset snap.store_hdr.item_section)
          snap.store_hdr.item_section.used r

    snap_item :
        (i : ℕ)
        → i < n
        → SameItem hdr ctx.mem (item_at hdr base i) hdr snap.mem (item_at hdr base i)
    snap_item i l = rw snapshot_same (SameItem-refl hdr ctx.mem (item_at hdr base i))

    -- The items of the new store are those that `ctx->store_items` pointed at.
    kept :
        (r : ℕ)
        → Inserts r
        → (i : ℕ) → i < n
        → SameItem hdr ctx.mem
            (item_at hdr base i)
            (new_ctx r).store_hdr
            (new_ctx r).mem
            (current (new_ctx r) (shifted r i))
    unfolding make_snapshot
    kept r ins i l =
        SameItem-trans _ _ _ _ _ _ _ _ _ (snap_item i l)
          (finished_others snap key value ready r ins i l)

    positive :
        (r : ℕ)
        → Inserts r
        → (j : ℕ) → j < n
        → order (terminated key) (item_key ctx.mem (item_at hdr base j)) ≡ Ordering.gt
        → 0 < r
    unfolding make_snapshot
    positive r ins j l gt = elim (zero_or_pos r) [
      | inr p ↦ p
      | inl z ↦
          let used = finished_used snap key value ready r in
          let lt : order (terminated key) (item_key ctx.mem (item_at hdr base j)) ≡ Ordering.lt =
            order-ext _ _ _ _ (SameStr-sym _ _ (finished_key snap key value ready r ins))
              (kept r ins j l).same_key
            ∙ (finished-IsStore snap key value ready r ins).table.ordered r (shifted r j)
                (ground arith) (omega (arith, shifted_le n r j l, used)) in
          absurd (ground (arith, gt, lt))
    ]

    -- A new key goes in next to the items that `ctx->store_items` points at.
    pub stale_set :
        (env : Env)
        → env.allocated ≡ true
        → (j : ℕ) → j < n
        → order (terminated key) (item_key ctx.mem (item_at hdr base j)) ≡ Ordering.gt
        → (ctx' : Ctx) × (r : ℕ) × (pupa_store_set env ctx key value ≡ some (sync_status env, ctx'))
          × IsStore ctx'
          × (ctx'.store_hdr.item_section.used ≡ n + 1)
          × ((i : ℕ)
              → i < n
              → SameItem hdr ctx.mem
                  (item_at hdr base i)
                  ctx'.store_hdr
                  ctx'.mem
                  (current ctx' (shifted r i)))
    unfolding make_snapshot
    stale_set env a j l gt =
        let (r, sorts) = sorting snap key value ready in
        let sorted = sorts.later (positive r sorts.inserted j l gt) in
        (
          new_ctx r,
          r,
          set_added env
              ∙ ap (finish_new env) item_added
              ∙ (finish_lem snap key value ready env r a).0 sorted,
          finished-IsStore snap key value ready r sorts.inserted,
          finished_used snap key value ready r,
          kept r sorts.inserted,
        )
