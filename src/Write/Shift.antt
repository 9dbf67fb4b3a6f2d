-- ===== src/Write/Shift.antt =====
-- `pupa_store_item_replace` moves the older values of an item one version back.
use native.Mathlib.Decide.{dec_lt, ℕ_discrete}
use pupa.Common.{
  ℕ, ◌+◌, ◌-◌, ◌*◌, ◌^◌, ◌≤◌, ◌<◌, ◌≡◌, ◌≢◌, ◌∙◌, ap, sym, refl, ◌⊎◌, arith, ltb, if◌then◌else◌,
  int32-pos,
}
use pupa.Memory.{
  Mem, store, put_outside, copy, copy_inside, copy_outside, load-store_self, byte, load-ext,
}
use pupa.Item.{val_cnt, set_val_cnt}
use pupa.Item.Block.{SameBlock}
use pupa.Write.{shift_values}

-- The number of versions after a replacement.
abbrev pub next_cnt : ℕ → ℕ → ℕ
next_cnt max_ver_num cnt = if ltb cnt max_ver_num then cnt + 1 else max_ver_num

-- The older versions have moved back by one, and `val` is where the new one goes.
pub record IsShifted (m : Mem) (max item : ℕ) (m' : Mem) (val : ℕ) : Type 0 where
  pub newest : val ≡ item + 16 + (max - 1) * 16
  pub counted : val_cnt m' item ≡ next_cnt max (val_cnt m item)
  pub outside : (x : ℕ) → (x < item + 12) ⊎ (item + 16 + max * 16 ≤ x) → m' x ≡ m x
  pub older :
      (v : ℕ)
      → 0 < v
      → v + 1 ≤ next_cnt max (val_cnt m item)
      → SameBlock 16 m (item + 16 + (max - v) * 16) m' (item + 16 + (max - (v + 1)) * 16)

module _ (m : Mem) (max item : ℕ) (some_version : 0 < max) (small : max < 2 ^ 31)
    (cnt_some : 0 < val_cnt m item) (cnt_max : val_cnt m item ≤ max) where
  abbrev cnt : ℕ
  cnt = val_cnt m item

  abbrev vals : ℕ
  vals = item + 16

  abbrev evicted : Mem
  evicted = copy m vals (vals + 16) ((cnt - 1) * 16)

  abbrev pushed : Mem
  pushed = copy m (vals + (max - cnt - 1) * 16) (vals + (max - cnt) * 16) (cnt * 16)

  -- The three ways through the function.
  shift_one : max ≡ 1 → shift_values m max item ≡ (m, vals)
  unfolding shift_values
  shift_one e = ground arith

  shift_full : max ≢ 1 → cnt ≡ max → shift_values m max item ≡ (evicted, vals + (cnt - 1) * 16)
  unfolding shift_values
  shift_full ne e = ground (arith, int32-pos cnt)

  shift_more :
      cnt < max
      → shift_values m max item ≡ (set_val_cnt pushed item (cnt + 1), vals + (max - 1) * 16)
  unfolding shift_values
  shift_more l = ground (arith, int32-pos cnt)

  one-IsShifted : max ≡ 1 → IsShifted m max item m vals
  one-IsShifted e = record {
    newest = omega arith;
    counted = ground arith;
    outside = λ x h. refl;
    older = λ v p q. absurd (ground arith);
  }

  evicted-cnt : val_cnt evicted item ≡ cnt
  unfolding val_cnt
  evicted-cnt =
      load-ext 4 evicted m (item + 12) (item + 12)
        (λ i l. copy_outside m vals (vals + 16) ((cnt - 1) * 16) (item + 12 + i) (omega arith))

  full-IsShifted : cnt ≡ max → IsShifted m max item evicted (vals + (cnt - 1) * 16)
  full-IsShifted e = record {
    newest = omega arith;
    counted = ground (arith, evicted-cnt);
    outside = λ x h. copy_outside m vals (vals + 16) ((cnt - 1) * 16) x (omega arith);
    older = λ v p q x y j ex ey h.
        let l : v + 1 ≤ max = ground arith in
        let c : x ≡ vals + 16 + ((max - (v + 1)) * 16 + j) = omega arith in
        ap m c
        ∙ sym (
            copy_inside m vals (vals + 16) ((cnt - 1) * 16) y ((max - (v + 1)) * 16 + j)
              (omega arith) (omega arith));
  }

  abbrev counted_mem : Mem
  counted_mem = set_val_cnt pushed item (cnt + 1)

  more_cnt : val_cnt counted_mem item ≡ cnt + 1
  unfolding val_cnt set_val_cnt
  more_cnt = load-store_self 4 pushed (item + 12) (cnt + 1) (omega arith)

  more-IsShifted : cnt < max → IsShifted m max item counted_mem (vals + (max - 1) * 16)
  unfolding set_val_cnt store
  more-IsShifted l = record {
    newest = omega arith;
    counted = ground (arith, more_cnt);
    outside = λ x h.
        put_outside pushed (item + 12) (byte (cnt + 1)) 4 x (omega arith)
        ∙ copy_outside m (vals + (max - cnt - 1) * 16) (vals + (max - cnt) * 16) (cnt * 16) x
            (omega arith);
    older = λ v p q x y j ex ey h.
        let b : v + 1 ≤ cnt + 1 = ground arith in
        let c : x ≡ vals + (max - cnt) * 16 + ((cnt - v) * 16 + j) = omega arith in
        ap m c
        ∙ sym (
            put_outside pushed (item + 12) (byte (cnt + 1)) 4 y (omega arith)
            ∙ copy_inside m (vals + (max - cnt - 1) * 16) (vals + (max - cnt) * 16) (cnt * 16) y
                ((cnt - v) * 16 + j) (omega arith) (omega arith));
  }

  -- `pupa_store_item_replace` keeps the older versions, one further back, and drops the oldest only
  -- if there are as many as the store keeps.
  pub shift_values-IsShifted :
      IsShifted m max item (shift_values m max item).0 (shift_values m max item).1
  shift_values-IsShifted = elim (dec_lt cnt max) [
    | yes l ↦ rw (shift_more l) (more-IsShifted l)
    | no nl ↦ elim (ℕ_discrete max 1) [
      | yes e ↦ rw (shift_one e) (one-IsShifted e)
      | no ne ↦ rw (shift_full ne (omega arith)) (full-IsShifted (omega arith))
    ]
  ]
