-- ===== src/Store/Snapshot.antt =====
-- `pupa_store_item_make_snapshot` copies the current items into the other area.
use native.Mathlib.Decide.{dec_lt}
use pupa.Common.{
  ℕ, ◌+◌, ◌*◌, ◌≤◌, ◌<◌, ◌≡◌, ◌∙◌, ap, sym, refl, ◌⊎◌, inl, inr, none, some, arith, ◌==◌,
  Bool-cases, ==_iff, step_le,
}
use pupa.Memory.{copy, copy_inside, copy_outside}
use pupa.Layout.{Header, offset, snapshot_offset, item_len}
use pupa.Item.{Str}
use pupa.Item.Block.{SameBlock}
use pupa.Context.{Ctx}
use pupa.Read.{find_item}
use pupa.Write.{make_snapshot}
use pupa.Store.{IsTable, IsStore, IsFresh, item_at}
use pupa.Item.Order.{item_key, SameStr, SameStr-trans, SameStr-sym}
use pupa.Store.Find.{IsKey, asked, find_item_hit, find_item_miss}
use pupa.Store.Get.{HasKey, LacksKey}
use pupa.Store.Keep.{Grows-refl, SameStrings, SameItem, kept-IsTable, kept_items}

module _ (ctx : Ctx) (s : IsStore ctx) (fresh : IsFresh ctx) where
  abbrev hdr : Header
  hdr = ctx.store_hdr

  abbrev n : ℕ
  n = hdr.item_section.used

  abbrev old : ℕ
  old = offset hdr.item_section

  abbrev new : ℕ
  new = snapshot_offset hdr.item_section

  copied :
      (x : ℕ) → (make_snapshot ctx).mem x ≡ copy ctx.mem new ctx.store_items (item_len hdr * n) x
  unfolding make_snapshot
  copied x = elim (Bool-cases (n == 0)) [
    | inr e ↦ rw e refl
    | inl e ↦
        let z : item_len hdr * n ≡ 0 =
          omega (arith, ap (λ (t : ℕ). item_len hdr * t) ((==_iff n 0).0 e)) in
        rw e (
          sym (elim (dec_lt x new) [
            | yes p ↦ copy_outside ctx.mem new ctx.store_items _ x (inl p)
            | no p ↦ copy_outside ctx.mem new ctx.store_items _ x (inr (omega arith))
          ]))
  ]

  pub snapshot_outside :
      (x : ℕ) → (x < new) ⊎ (item_at hdr new n ≤ x) → (make_snapshot ctx).mem x ≡ ctx.mem x
  snapshot_outside x h = copied x ∙ copy_outside ctx.mem new ctx.store_items _ x (omega arith)

  pub snapshot_block :
      (i : ℕ)
      → i < n
      → SameBlock
          (item_len hdr)
          ctx.mem
          (item_at hdr old i)
          (make_snapshot ctx).mem
          (item_at hdr new i)
  snapshot_block i l x y j ex ey h =
      let e : x ≡ ctx.store_items + (i * item_len hdr + j) = omega (arith, fresh) in
      ap ctx.mem e
      ∙ sym (
          copied y
          ∙ copy_inside ctx.mem new ctx.store_items _ y (i * item_len hdr + j) (omega arith)
              (omega (arith, step_le i n (item_len hdr) l)))

  pub snapshot_strings : SameStrings hdr ctx.mem (make_snapshot ctx).mem
  snapshot_strings = record {
    same_keys = λ x p q. sym (snapshot_outside x (omega (arith, s.room.snapshot_below_keys)));
    same_values = λ x p q.
        sym (
          snapshot_outside x (omega (arith, s.room.snapshot_below_keys, s.room.keys_below_values)));
  }

  -- The snapshot holds the same items.
  pub snapshot_items :
      (i : ℕ)
      → i < n
      → SameItem hdr ctx.mem (item_at hdr old i) hdr (make_snapshot ctx).mem (item_at hdr new i)
  snapshot_items =
      kept_items hdr hdr (Grows-refl hdr) ctx.mem (make_snapshot ctx).mem snapshot_strings old new n
        snapshot_block s.table

  pub snapshot-IsTable : IsTable hdr (make_snapshot ctx).mem new n
  snapshot-IsTable =
      kept-IsTable hdr hdr (Grows-refl hdr) ctx.mem (make_snapshot ctx).mem snapshot_strings old new
        n snapshot_block s.table

  -- The items that the readers use stay as they are.
  pub snapshot_keeps :
      (x : ℕ) → old ≤ x → x < item_at hdr old n → (make_snapshot ctx).mem x ≡ ctx.mem x
  snapshot_keeps x p q = elim s.room.apart [
    | inl a ↦ snapshot_outside x (inl (omega arith))
    | inr a ↦ snapshot_outside x (inr (omega arith))
  ]

  -- The search in the snapshot finds what is in the store.
  module _ (key : Str) (k : IsKey key) where
    pub snapshot_finds :
        (i : ℕ)
        → HasKey ctx key i
        → find_item (make_snapshot ctx) (make_snapshot ctx).store_items_snapshot key
          ≡ some (item_at hdr new i)
    unfolding make_snapshot
    snapshot_finds i has =
        find_item_hit (make_snapshot ctx) new snapshot-IsTable key k i has.inside
          (SameStr-trans _ _ _ has.same (snapshot_items i has.inside).same_key)

    pub snapshot_lacks :
        LacksKey ctx key
        → (i : ℕ) → i < n
        → ¬ SameStr (asked key) (item_key (make_snapshot ctx).mem (item_at hdr new i))
    snapshot_lacks absent i l same =
        absent i l (SameStr-trans _ _ _ same (SameStr-sym _ _ (snapshot_items i l).same_key))

    pub snapshot_misses :
        LacksKey ctx key
        → find_item (make_snapshot ctx) (make_snapshot ctx).store_items_snapshot key ≡ none
    unfolding make_snapshot
    snapshot_misses absent =
        find_item_miss (make_snapshot ctx) new snapshot-IsTable key k (snapshot_lacks absent)
