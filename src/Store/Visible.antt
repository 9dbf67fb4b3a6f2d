-- ===== src/Store/Visible.antt =====
-- What the other processes see of a store: a change elsewhere changes no lookup.
use pupa.Common.{ℕ, ◌+◌, ◌*◌, ◌≤◌, ◌<◌, ◌≡◌, ◌∙◌, ap, subst, sym, ◌⊎◌, inl, inr, arith, step_le}
use pupa.Layout.{offset, item_len}
use pupa.Item.Block.{SameBlock}
use pupa.Context.{Ctx}
use pupa.Store.{IsStore, IsTable, HasRoom, keys, values, item_at}
use pupa.Store.Get.{current}
use pupa.Store.Keep.{Grows, SameStrings, SameItem, kept-IsTable, kept_items}

-- The current items, and the used parts of the key and value areas.
abbrev pub Visible : Ctx → ℕ → Type 0
Visible ctx x =
    let h = ctx.store_hdr in
    let items = offset h.item_section in
    ((items ≤ x) × (x < item_at h items h.item_section.used))
    ⊎ (((keys h ≤ x) × (x < keys h + h.key_section.used))
        ⊎ ((values h ≤ x) × (x < values h + h.value_section.used)))

-- `ctx'` has the item section of `ctx`, and its bytes where they are visible; the key and value
-- sections may be filled further.
pub record Hidden (ctx ctx' : Ctx) : Type 0 where
  pub items : ctx'.store_hdr.item_section ≡ ctx.store_hdr.item_section
  pub grows : Grows ctx.store_hdr ctx'.store_hdr
  pub room : HasRoom ctx'.store_hdr ctx'.store_hdr.item_section.used
  pub seen : (x : ℕ) → Visible ctx x → ctx.mem x ≡ ctx'.mem x

module _ (ctx ctx' : Ctx) (s : IsStore ctx) (h : Hidden ctx ctx') where
  abbrev n : ℕ
  n = ctx.store_hdr.item_section.used

  pub hidden-used : ctx'.store_hdr.item_section.used ≡ n
  hidden-used = ap (λ t. t.used) h.items

  same_area : offset ctx'.store_hdr.item_section ≡ offset ctx.store_hdr.item_section
  same_area = ap offset h.items

  same_len : item_len ctx'.store_hdr ≡ item_len ctx.store_hdr
  unfolding item_len
  same_len = ap (λ max. 16 + max * 16) (sym h.grows.same_max)

  hidden_strings : SameStrings ctx.store_hdr ctx.mem ctx'.mem
  hidden_strings = record {
    same_keys = λ x p q. h.seen x (inr (inl (p, q)));
    same_values = λ x p q. h.seen x (inr (inr (p, q)));
  }

  hidden_block :
      (i : ℕ)
      → i < n
      → SameBlock (item_len ctx.store_hdr) ctx.mem (current ctx i) ctx'.mem (current ctx' i)
  hidden_block i l x y j ex ey p =
      let product : i * item_len ctx'.store_hdr ≡ i * item_len ctx.store_hdr =
        ap (λ t. i * t) same_len in
      let same : x ≡ y = omega (arith, same_area, product) in
      h.seen x (inl (omega arith, omega (arith, step_le i n (item_len ctx.store_hdr) l)))
      ∙ ap ctx'.mem same

  -- The items are the same ...
  pub hidden_items :
      (i : ℕ)
      → i < n
      → SameItem ctx.store_hdr ctx.mem (current ctx i) ctx'.store_hdr ctx'.mem (current ctx' i)
  hidden_items =
      kept_items ctx.store_hdr ctx'.store_hdr h.grows ctx.mem ctx'.mem hidden_strings
        (offset ctx.store_hdr.item_section) (offset ctx'.store_hdr.item_section) n hidden_block
        s.table

  -- ... and it is a store as before.
  pub hidden-IsStore : IsStore ctx'
  hidden-IsStore = record {
    room = h.room;
    table =
        subst (λ u. IsTable ctx'.store_hdr ctx'.mem (offset ctx'.store_hdr.item_section) u)
          (sym hidden-used)
          (kept-IsTable ctx.store_hdr ctx'.store_hdr h.grows ctx.mem ctx'.mem hidden_strings
            (offset ctx.store_hdr.item_section) (offset ctx'.store_hdr.item_section) n hidden_block
            s.table);
  }
