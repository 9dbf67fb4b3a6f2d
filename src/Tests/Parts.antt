-- ===== src/Tests/Parts.antt =====
-- The properties of the parts below the store, each at one input.
use pupa.Common.{ℕ, zero, suc, ◌+◌, ◌*◌, ◌^◌, ◌≤◌, ◌<◌, ◌≡◌, refl, [], ◌∷◌, Ordering, some, arith}
use pupa.Memory.{load}
use pupa.Layout.{pupa_store_init, item_len}
use pupa.Layout.Bounds.{IsLaidOut, init_areas, items_overlap}
use pupa.Item.{compare_key, key_len}
use pupa.Item.Order.{order, item_key, compare_key_lem}
use pupa.Sort.{pupa_bsearch}
use pupa.Sort.Search.{IsRank, Finds, search_lem}
use pupa.Write.{pupa_store_set, shift_values}
use pupa.Write.Shift.{IsShifted, shift_values-IsShifted}
use pupa.Context.{Ctx, ok}
use pupa.Read.{refresh}
use pupa.Store.Reading.{Reads, ReadsAlike}
use pupa.Store.Lost.{FitsBoth, set_set_loses, set_get_set_keeps}
use pupa.Tests.Fixture.{at, fine, two, two-IsStore, ctx-IsFresh, room, cnt_a}
use pupa.Tests.Keys.{key_a, key_c, IsKey-a, IsKey-c, HasKey-a, LacksKey-c, value_c}
use pupa.Tests.Reads.{cnt_first}
use pupa.Tests.Writes.{c_above_a}

init_areas_example :
    ((pupa_store_init 10 3).0.max_ver_num ≡ 3)
    × IsLaidOut (pupa_store_init 10 3).0.item_section 128 208 10
    × IsLaidOut (pupa_store_init 10 3).0.key_section 544 640 640
    × IsLaidOut (pupa_store_init 10 3).0.value_section 1824 2560 2560
    × ((pupa_store_init 10 3).1 ≡ 6944)
init_areas_example = init_areas 10 3 (omega arith)

items_overlap_example :
    (pupa_store_init 10 3).0.item_section.sec2_offset
    < (pupa_store_init 10 3).0.item_section.sec1_offset
      + (pupa_store_init 10 3).0.item_section.size * item_len (pupa_store_init 10 3).0
items_overlap_example = items_overlap 10 3 (omega arith) (omega arith) (omega arith)

short_key : key_len two.mem 192 < 2 ^ 31
unfolding key_len load
short_key = omega arith

compare_key_example :
    compare_key two.mem 2 (at (97 ∷ [])) 192
    ≡ order (record { len = 2; bytes = at (97 ∷ []) }) (item_key two.mem 192)
compare_key_example = compare_key_lem two.mem 2 (at (97 ∷ [])) 192 (omega arith) short_key

-- The elements 0, 10 and 20, and 15 behind them.
abbrev cmp : ℕ → Ordering
cmp zero = Ordering.gt
cmp (suc zero) = Ordering.gt
cmp (suc (suc zero)) = Ordering.lt
cmp (suc (suc (suc x))) = Ordering.eq

cmp-IsRank : IsRank cmp 0 1 3 2
cmp-IsRank = record { within = omega arith; below = below; above = above; last = refl }
  where
    below : (i : ℕ) → i < 2 → cmp (0 + i * 1) ≡ Ordering.gt
    below zero l = refl
    below (suc zero) l = refl
    below (suc (suc i)) l = absurd (omega arith)

    above : (i : ℕ) → 2 ≤ i → i < 3 → cmp (0 + i * 1) ≡ Ordering.lt
    above zero l p = absurd (omega arith)
    above (suc zero) l p = absurd (omega arith)
    above (suc (suc zero)) l p = refl
    above (suc (suc (suc i))) l p = absurd (omega arith)

search_example : Finds 2 (pupa_bsearch cmp 0 1 4 0 3)
search_example = search_lem cmp 0 1 3 2 cmp-IsRank

shift_values_example :
    IsShifted two.mem 3 128 (shift_values two.mem 3 128).0 (shift_values two.mem 3 128).1
shift_values_example =
    shift_values-IsShifted two.mem 3 128 (omega arith) (omega arith) (omega (arith, cnt_a))
      (omega (arith, cnt_a))

fits_both : FitsBoth two value_c key_c value_c
fits_both = record {
  item_free = λ e. absurd (omega arith);
  key_free = omega arith;
  values_free = omega arith;
  value_short = omega arith;
  value2_short = omega arith;
  room = room 2 3 (omega arith);
}

set_set_loses_example :
    (ctx' ctx'' : Ctx) × (pupa_store_set fine two key_a value_c ≡ some (ok, ctx'))
    × (pupa_store_set fine ctx' key_c value_c ≡ some (ok, ctx''))
    × ReadsAlike two ctx'' key_a 1 1
set_set_loses_example =
    set_set_loses two two-IsStore (ctx-IsFresh 2) key_a value_c IsKey-a 0 HasKey-a key_c value_c
      IsKey-c fits_both LacksKey-c fine refl 0 (omega arith) c_above_a 1 (omega arith)
      (omega (arith, cnt_first))

set_get_set_keeps_example :
    (ctx' ctx'' : Ctx) × (pupa_store_set fine two key_a value_c ≡ some (ok, ctx'))
    × (pupa_store_set fine (refresh ctx') key_c value_c ≡ some (ok, ctx''))
    × Reads ctx'' key_a value_c
set_get_set_keeps_example =
    set_get_set_keeps two two-IsStore (ctx-IsFresh 2) key_a value_c IsKey-a 0 HasKey-a key_c value_c
      IsKey-c fits_both LacksKey-c fine refl 0 (omega arith) c_above_a
