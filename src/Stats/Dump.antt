-- ===== src/Stats/Dump.antt =====
-- Which items `pupa_store_dump` prints.
use native.Mathlib.Nat.{add-zero}
use pupa.Common.{
  ℕ, zero, suc, ◌+◌, ◌*◌, ◌<◌, ◌≡◌, ◌∙◌, ap, sym, some, int32, List, arith, get_elem?,
}
use pupa.Memory.{Mem}
use pupa.Layout.{item_len, sizeof_item}
use pupa.Item.{val_cnt}
use pupa.Context.{Ctx}
use pupa.Store.{item_at}
use pupa.Read.{rounds_of}
use pupa.Stats.{dump_values, dump_items, pupa_store_dump}

-- 0 + 1 + ... + n
abbrev pub triangle : ℕ → ℕ
triangle zero = 0
triangle (suc n) = triangle n + suc n

dump_items-get :
    (m : Mem) (len base rounds i item j : ℕ)
    → item + i * len ≡ base + triangle i * len
    → j < rounds
    → (vs : List ℕ) × (get_elem? (dump_items m len rounds i item) j
        ≡ some (base + triangle (i + j) * len, vs))
unfolding dump_items
dump_items-get m len base zero i item j e l = absurd (omega arith)
dump_items-get m len base (suc rounds) i item zero e l =
    let vs : List ℕ =
      dump_values (rounds_of (int32 (val_cnt m (item + i * len)))) (item + i * len + sizeof_item) in
    (
      vs,
      ap (λ (a : ℕ). some (a, vs)) (e ∙ ap (λ (x : ℕ). base + triangle x * len) (sym (add-zero i))),
    )
dump_items-get m len base (suc rounds) i item (suc j) e l =
    let next : item + i * len + suc i * len ≡ base + triangle (suc i) * len = grind arith in
    let index : suc i + j ≡ i + suc j = omega arith in
    rw index at (dump_items-get m len base rounds (suc i) (item + i * len) j next (omega arith))

-- Of `used` current items, the item that `pupa_store_dump` prints with `index: i` is the one with the
-- number 0 + 1 + ... + i: it leaves items out, and goes on behind the last one.
pub dump_skips :
    (ctx : Ctx) (i : ℕ)
    → i < ctx.store_hdr.item_section.used
    → (vs : List ℕ) × (get_elem? (pupa_store_dump ctx).0 i
        ≡ some (item_at ctx.store_hdr ctx.store_items (triangle i), vs))
unfolding pupa_store_dump
dump_skips ctx i l =
    let zero_add : 0 + i ≡ i = omega arith in
    rw zero_add at (
      dump_items-get ctx.mem (item_len ctx.store_hdr) ctx.store_items
        ctx.store_hdr.item_section.used 0 ctx.store_items i (omega arith) l)
