-- ===== src/Store/ReplacedTable.antt =====
-- The items of a snapshot after a replacement in one of them.
use native.Mathlib.Decide.{ℕ_discrete, dec_lt}
use pupa.Common.{ℕ, ◌+◌, ◌≤◌, ◌<◌, ◌≡◌, ◌≢◌, ◌∙◌, ap, sym, refl, ◌⊎◌, inl, inr, arith, step_le}
use pupa.Layout.{Header, item_len}
use pupa.Item.{Str}
use pupa.Item.Block.{SameBlock}
use pupa.Item.Order.{item_key, order-ext, SameStr}
use pupa.Context.{Ctx}
use pupa.Write.{replace_value, link_value}
use pupa.Store.{IsItem, IsTable, HasRoom, keys, item_at}
use pupa.Store.Keep.{Grows, SameStrings, SameItem, kept_SameItem, kept_IsItem}
use pupa.Store.Replaced.{
  FitsValue, replaced, replaced_outside, replaced-Grows, replaced_strings, replaced_key,
  replaced-IsItem,
}

-- The table in the snapshot that `ctx` holds, after the replacement in its item `i`.
module _ (ctx : Ctx) (value : Str) (fits : FitsValue ctx.store_hdr value) (base i : ℕ)
    (g : HasRoom ctx.store_hdr ctx.store_hdr.item_section.used)
    (t : IsTable ctx.store_hdr ctx.mem base ctx.store_hdr.item_section.used)
    (inside : i < ctx.store_hdr.item_section.used)
    (area : item_at ctx.store_hdr base ctx.store_hdr.item_section.used ≤ keys ctx.store_hdr) where
  abbrev pub hdr : Header
  hdr = ctx.store_hdr

  abbrev pub n : ℕ
  n = hdr.item_section.used

  abbrev pub item : ℕ
  item = item_at hdr base i

  pub below : item + item_len hdr ≤ keys hdr
  below = omega (arith, step_le i n (item_len hdr) inside)

  abbrev pub valid : IsItem hdr ctx.mem item
  valid = t.items i inside

  abbrev pub after : Ctx
  after = replaced ctx item value fits below n g valid

  pub grown : Grows hdr after.store_hdr
  grown = replaced-Grows ctx item value fits below n g valid

  pub strings : SameStrings hdr ctx.mem after.mem
  strings = replaced_strings ctx item value fits below n g valid

  other_block :
      (j : ℕ)
      → j < n
      → j ≢ i
      → SameBlock (item_len hdr) ctx.mem (item_at hdr base j) after.mem (item_at hdr base j)
  other_block j l ne x y d ex ey h =
      let e : x ≡ y = omega arith in
      ap ctx.mem e
      ∙ sym (
          replaced_outside ctx item value fits below n g valid y (apart (dec_lt j i))
            (omega (arith, step_le j n (item_len hdr) l, g.keys_below_values)))
    where
      apart : Dec (j < i) → (y < item + 12) ⊎ (item + item_len hdr ≤ y)
      apart (yes p) = inl (omega (arith, step_le j i (item_len hdr) p))
      apart (no p) = inr (omega (arith, step_le i j (item_len hdr) (omega arith)))

  pub other_item :
      (j : ℕ)
      → j < n
      → j ≢ i
      → SameItem hdr ctx.mem (item_at hdr base j) after.store_hdr after.mem (item_at hdr base j)
  other_item j l ne =
      kept_SameItem hdr after.store_hdr grown ctx.mem after.mem strings _ _ (other_block j l ne)
        (t.items j l)

  pub item_after : (j : ℕ) → j < n → IsItem after.store_hdr after.mem (item_at hdr base j)
  item_after j l = elim (ℕ_discrete j i) [
    | yes e ↦ rw e (replaced-IsItem ctx item value fits below n g valid)
    | no ne ↦
        kept_IsItem hdr after.store_hdr grown ctx.mem after.mem strings _ _ (other_block j l ne)
          (t.items j l)
  ]

  pub same_keys :
      (j : ℕ)
      → j < n
      → SameStr (item_key ctx.mem (item_at hdr base j)) (item_key after.mem (item_at hdr base j))
  same_keys j l = elim (ℕ_discrete j i) [
    | yes e ↦ rw e (replaced_key ctx item value fits below n g valid)
    | no ne ↦ (other_item j l ne).same_key
  ]

  pub same_item_at : (b j : ℕ) → item_at after.store_hdr b j ≡ item_at hdr b j
  unfolding replace_value link_value item_len
  same_item_at b j = refl

  pub IsTable-after : IsTable after.store_hdr after.mem base n
  IsTable-after = record {
    items = λ j l. rw (same_item_at base j) (item_after j l);
    ordered = λ j k l l'.
        rw (same_item_at base j, same_item_at base k)
          (sym (order-ext _ _ _ _ (same_keys j (omega arith)) (same_keys k l'))
            ∙ t.ordered j k l l');
  }
